-- ===== src/AccessRequests.antt =====
-- backend/apps/access_requests: what a client asks of the operator, from the deposit of a request to
-- its conclusion.
pub mod Model
pub mod Subjects
pub mod Services
pub mod Table
pub mod Constraint
pub mod Outcomes
pub mod Follow
pub mod Reach
pub mod Answers
pub mod Grants
pub mod Stale
