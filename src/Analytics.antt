-- ===== src/Analytics.antt =====
-- backend/internal/analytics: what the readings and the audit log say of a classroom.
pub mod Groups
pub mod Repository
pub mod Service
pub mod Summary
pub mod Report
pub mod Usage
pub mod Series
pub mod Examples
