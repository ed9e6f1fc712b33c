-- ===== src/Pilots/Queue.antt =====
-- pilots/queue.py: the non-blocking work queue over the backlogs of persistent workflows.
pub mod Errors
pub mod Items
pub mod Parsed
pub mod Selection
pub mod Order
pub mod Guards
pub mod Operations
pub mod Blocking
pub mod Repair
pub mod Completion
pub mod Global
pub mod Calls
mod Tests
