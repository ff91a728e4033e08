-- ===== src/Exams.antt =====
-- The exams module (modules/exams): exams, their questions, and the attempts of students.
pub mod Entities
pub mod Manage
pub mod Attempt
pub mod Limit
pub mod Score
pub mod Submit
mod Tests
