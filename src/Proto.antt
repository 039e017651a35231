-- ===== src/Proto.antt =====
-- crates/boa-proto: what the client and the server exchange.
pub mod Model
pub mod Control
pub mod Media
