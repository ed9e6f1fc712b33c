-- ===== src/Domain.antt =====
-- The shared vocabulary: enumerations, JSON values and public ids.
pub mod Blockers
pub mod Enums
pub mod Ids
pub mod Json
