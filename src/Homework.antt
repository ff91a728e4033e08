-- ===== src/Homework.antt =====
-- The homework module (modules/homework): assignments and the students' submissions.
pub mod Entities
pub mod Assignments
pub mod Submissions
pub mod Detail
pub mod Submitting
pub mod Grading
pub mod Resubmitting
mod Tests
