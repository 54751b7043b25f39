-- ===== src/Onemoney.antt =====
-- code/crates/relayer/src/onemoney: what the relayer reads from the 1Money node.
pub mod Error
pub mod Types
pub mod Stream
