-- ===== src/Scene.antt =====
-- backend/internal/scene: the scenes of a classroom, each a list of commands to devices.
pub mod Repository
pub mod Service
pub mod Runs
pub mod Examples
