-- ===== src/Courses.antt =====
-- The courses module (modules/courses): lessons and enrolment.
pub mod Entities
pub mod Lessons
pub mod Enrolment
pub mod Files
pub mod Enrolled
pub mod Once
mod Tests
