-- ===== src/Incoming.antt =====
-- code/crates/relayer/src/incoming: events of the sidechain relayed to 1Money.
pub mod Error
pub mod Handlers
pub mod Events
pub mod Recovery
pub mod Nonces
