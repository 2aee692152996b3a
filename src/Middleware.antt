-- ===== src/Middleware.antt =====
-- backend/internal/platform/httpx/middleware: what stands before the handlers.
pub mod Authn
pub mod RateLimit
pub mod Examples
