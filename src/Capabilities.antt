-- ===== src/Capabilities.antt =====
-- src/capabilities: the registry of capabilities, and the dispatcher through which every caller
-- runs them.
pub mod Registry
pub mod Dispatcher
pub mod Confirm
mod Examples
