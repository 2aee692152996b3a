-- ===== src/Push.antt =====
-- backend/internal/devicetoken and backend/internal/pushnotif: the phones of a user, and the pushes
-- to them.
pub mod Tokens
pub mod Client
pub mod Pusher
pub mod Examples
