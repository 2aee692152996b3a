-- ===== src/Device.antt =====
-- backend/internal/device and backend/internal/devicectl: the devices of a classroom.
pub mod Drivers
pub mod Repository
pub mod Service
pub mod Requests
pub mod Registry
pub mod Commands
pub mod Examples
