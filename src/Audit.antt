-- ===== src/Audit.antt =====
-- backend/internal/auditlog: the log of actions, its bounded queue and the worker that stores it.
pub mod Repository
pub mod Service
pub mod Queue
pub mod Steps
pub mod Shutdown
pub mod Examples
