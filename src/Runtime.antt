-- ===== src/Runtime.antt =====
-- runtime/: the durable missions.
pub mod Mission
mod Tests
