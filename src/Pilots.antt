-- ===== src/Pilots.antt =====
-- src/lucius/pilots: the work queue of the persistent workflows, and the workflows themselves.
pub mod Queue
pub mod Workflows
