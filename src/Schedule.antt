-- ===== src/Schedule.antt =====
-- backend/internal/schedule: the weekly timetable of a classroom.
pub mod TimeOfDay
pub mod Lesson
pub mod Repository
pub mod Service
pub mod Requests
pub mod Timetable
pub mod Current
pub mod Week
pub mod Race
pub mod Bodies
pub mod Handler
pub mod Answers
pub mod Created
mod Examples
