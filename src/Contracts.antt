-- ===== src/Contracts.antt =====
-- code/solidity/src: the contracts that the relayer calls.
pub mod Mapping
pub mod Outcome
pub mod Pending
pub mod TxHashMapping
pub mod OmInterop
pub mod PriceOracle
