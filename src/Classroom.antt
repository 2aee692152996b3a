-- ===== src/Classroom.antt =====
-- backend/internal/classroom: classrooms, their members, and who may do what.
pub mod Repository
pub mod Service
pub mod Access
pub mod Requests
pub mod Invariant
pub mod Membership
mod Examples
