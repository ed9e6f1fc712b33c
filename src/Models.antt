-- ===== src/Models.antt =====
-- models/: the routing of a model request to a profile.
pub mod Schemas
pub mod Policies
pub mod Router
mod Tests
