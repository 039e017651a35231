-- ===== src/Server.antt =====
-- crates/boa-server: the hub, the media relay and the sessions of the control plane.
pub mod Hub
pub mod Relay
pub mod Db
pub mod Blobs
pub mod Accounts
pub mod Files
pub mod Session
