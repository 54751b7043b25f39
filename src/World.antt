-- ===== src/World.antt =====
-- What the relayer talks to. Every call of the relayer to a service (the sidechain node, the
-- contracts on it, the 1Money node, the clock, a subscription) is a `Call` with the type of its
-- reply; a `World` answers a call from the history of the calls before it, so whatever happens
-- between two calls is in the choice of the answers. Pure functions of third-party crates
-- (alloy, k256, ruint, hex, serde) are fields of `Crates`.
pub mod Types
pub mod Calls
pub use Types.*
pub use Calls.*
