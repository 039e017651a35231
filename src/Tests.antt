-- ===== src/Tests.antt =====
-- Runs of the code at fixed inputs.
pub mod Media
pub mod Hub
pub mod Session
pub mod Client
pub mod Governor
pub mod Store
pub mod Shown
