-- ===== src/Sidechain.antt =====
-- code/crates/relayer/src/sidechain, and the keys of code/crates/validator_manager: the validator
-- set of the sidechain brought up to date.
pub mod Error
pub mod Keys
pub mod Diff
pub mod Update
