-- ===== src/Contracts/OmInterop.antt =====
-- code/solidity/src/OMInterop.sol with OMInteropStorage.sol and OMInteropTypes.sol: the contract on
-- the sidechain that emits the events and takes the withdrawals.
pub mod State
pub mod Checkpoints
pub mod RateLimits
pub mod Bridge
pub mod Admin
pub mod Pruning
pub mod Numbering
pub mod Invariant
pub mod Steps
pub mod Histories
pub mod Replay
pub mod Limits
pub mod Untouched
pub mod Stuck
pub mod Late
pub mod Refunds
pub mod Reports
pub mod Lifecycle
