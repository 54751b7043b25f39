-- ===== src/Lib.antt =====
-- The relayer of the interoperability protocol between 1Money, a payment chain, and a sidechain with
-- the OMInterop contract (code/crates in the repository, in Rust), and the contracts of the sidechain that
-- it calls (code/solidity/src).
--
-- The relayer is a set of concurrent loops that share one atomic nonce. Deposits are events of the
-- contract, which it mints or pays out on 1Money; withdrawals are burn-and-bridge transactions of
-- 1Money, which it bridges by calling the contract; each new epoch of 1Money becomes the validator set
-- of the sidechain; and the hashes of both sides are linked in a mapping contract.
--
-- Prelude: numbers of 64 bits, Boolean tests, lists, sorting. World: the data that is exchanged, the
-- calls that the relayer makes, and the pure functions of third-party crates. A `World` answers each
-- call from the history of all exchanges, so a theorem for every world holds for every behaviour of
-- the nodes. Action: a computation of the relayer, an explicit passing of the shared nonce and the
-- history, with the ways in which it ends (a value, an error, a panic, or still waiting), its loops,
-- and two views of what it does: Action.Nonces, the nonces of the transactions that were accepted,
-- and Action.Writes, the transactions that were sent.
--
-- The files that model the code:
--   Submit                in relayer/src, the two patterns in which a transaction is sent with the shared nonce
--   Config                relayer/src/config
--   Interop, Interop.*    onemoney_interop/src/event.rs, error.rs and contract.rs, and its build.rs (Build)
--   Incoming.*            relayer/src/incoming: handlers.rs, mod.rs (Events), recovery.rs
--   Onemoney.*            relayer/src/onemoney: types, stream.rs, mod.rs, transaction.rs
--   Outgoing.*            relayer/src/outgoing: relay.rs, stream.rs, recovery.rs
--   Sidechain.*           relayer/src/sidechain and validator_manager/src/lib.rs
--   Poa                   relayer/src/poa
--   Cli                   relayer/src/cli.rs and error.rs
--   Contracts.Mapping     what the contracts use of Solidity: mappings, arrays, reverts
--   Contracts.Pending, Contracts.TxHashMapping    code/solidity/src/TxHashMapping.sol
--   Contracts.PriceOracle code/solidity/src/PriceOracle.sol
--   Contracts.OmInterop.* code/solidity/src/OMInterop.sol: State, Checkpoints, RateLimits, Bridge, Admin
-- Functions keep the names of the code; a part of a long function has a name of its own. The other
-- modules below these prove, and Examples has a concrete world with tests.
--
-- A stream is an action that is given what its consumer does with an item. Loops over blocks take
-- fuel, and a theorem says how much is enough; loops that wait for a service take a bound on their
-- rounds, after which the action is still waiting, which no theorem takes for a result.
--
-- A method of a contract maps its storage to the new storage or to the error with which it reverts, and
-- a history applies a sequence of calls of any senders, of which the reverted ones change nothing. What
-- OpenZeppelin, LayerZero and the price oracle answer is a part of each call; the pruning loop takes its
-- gas as fuel, and running out of it reverts. The relayer and the contracts meet in Outgoing.Restart,
-- where a world answers by the contract's own methods, in Incoming.Events.Linked, where TxHashMapping
-- gets the transactions of a relay, and in Interop.Contract, where a deployment leaves an initialised
-- storage; OMInterop and PriceOracle meet in Contracts.OmInterop.Refunds.
--
-- Not modelled: the interleaving of the concurrent loops on their shared nonce (each loop is an action
-- of its own, that runs alone), the parsing of arguments, JSON, and ABI data (parameters of the model), logging, timers, the bindings that sol! generates, the contracts that
-- OMInterop calls (tokens, LayerZero), which are taken not to call back, and the
-- upgrade of the proxy.
pub mod Prelude
pub mod World
pub mod Action
pub mod Submit
pub mod Config
pub mod Interop
pub mod Onemoney
pub mod Outgoing
pub mod Sidechain
pub mod Poa
pub mod Cli
pub mod Incoming
pub mod Contracts
pub mod Examples
