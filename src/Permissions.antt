-- ===== src/Permissions.antt =====
-- src/permissions: who may run which capability.
pub mod Principal
pub mod Schema
pub mod Store
pub mod Denials
mod Examples
