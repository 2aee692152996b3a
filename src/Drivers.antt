-- ===== src/Drivers.antt =====
-- backend/internal/devicectl/drivers: the adapters that talk HTTP to devices, but for the commands of
-- Home Assistant (Hass.Driver).
pub mod Web
pub mod Generic
pub mod Smartthings
pub mod Probes
pub mod Urls
pub mod Examples
