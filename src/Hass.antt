-- ===== src/Hass.antt =====
-- backend/internal/hass: the credentials that the backend holds for Home Assistant, and what it asks
-- of it.
pub mod Credentials
pub mod Service
pub mod Access
pub mod Refresh
pub mod Network
pub mod Client
pub mod Filled
pub mod Handed
pub mod Wizard
pub mod Scrub
pub mod Aborts
pub mod SelfCheck
pub mod Held
pub mod Driver
pub mod Adoption
pub mod Examples
