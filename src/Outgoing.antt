-- ===== src/Outgoing.antt =====
-- code/crates/relayer/src/outgoing: burn-and-bridge transactions of 1Money relayed to the sidechain.
pub mod Error
pub mod Relay
pub mod Stream
pub mod Recovery
pub mod Restart
pub mod Nonces
