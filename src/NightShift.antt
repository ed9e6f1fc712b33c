-- ===== src/NightShift.antt =====
-- night_shift/supervisor.py: the supervisor that runs tasks one after the other without supervision.
pub mod Schemas
pub mod Services
pub mod Containment
pub mod Promotion
pub mod Night
pub mod Cycle
pub mod Loop
mod Tests
