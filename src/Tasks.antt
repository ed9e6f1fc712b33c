-- ===== src/Tasks.antt =====
-- tasks/: the authority policy, the task's contract, and the service that moves a task through its life.
pub mod Policy
pub mod Errors
pub mod Contracts
pub mod Criteria
pub mod Service
pub mod Calls
mod Tests
