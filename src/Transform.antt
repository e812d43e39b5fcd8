-- ===== src/Transform.antt =====
-- src/transform/mod.rs: the translation of pangolin's configuration into Gateway API objects.
pub mod Desired
pub mod Naming
pub mod Rule
pub mod Middleware
pub mod Protocol
pub mod Backend
pub mod L4
pub mod ExtAuthz
pub mod Route
pub mod Listener
pub mod Build
