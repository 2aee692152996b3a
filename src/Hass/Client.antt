-- ===== src/Hass/Client.antt =====
-- client.go of backend/internal/hass: onboarding, tokens, config flows and entities.
pub mod Tokens
pub mod Onboarding
pub mod Flows
pub mod Progress
pub mod Remote
pub mod Paths
pub mod Attempts
pub mod Issued
