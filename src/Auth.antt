-- ===== src/Auth.antt =====
-- backend/internal/auth: registration, login, and the rotation of refresh tokens.
pub mod Store
pub mod MemStore
pub mod Service
pub mod Requests
pub mod Spent
pub mod Rotation
pub mod Revocation
pub mod Accounts
pub mod Sessions
pub mod Examples
