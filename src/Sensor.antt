-- ===== src/Sensor.antt =====
-- backend/internal/sensor: the readings of sensors, which devices report.
pub mod Repository
pub mod Reads
pub mod Service
pub mod Ingestion
pub mod Latest
pub mod Examples
