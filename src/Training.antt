-- ===== src/Training.antt =====
-- backend/apps/training: courses, nominative links, screens, quiz and certificates.
pub mod Model
pub mod Session
pub mod Counting
pub mod Following
pub mod Grading
pub mod Links
pub mod Quiz
pub mod Access
pub mod Attempts
pub mod Rows
pub mod Steps
pub mod Reach
