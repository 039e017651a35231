-- ===== src/Client.antt =====
-- crates/boa-client: what the client does with the packets and messages that reach it.
pub mod Recv
pub mod Ring
pub mod State
pub mod Governor
pub mod Voice
