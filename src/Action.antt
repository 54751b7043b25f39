-- ===== src/Action.antt =====
-- An `async fn` of the relayer: an action on the shared `RelayerNonce` (an `Arc<AtomicU64>`) and the
-- history of the calls to services. It returns, fails with an error of its module, panics, or is
-- still waiting when the rounds allotted to a loop run out. What was written before a failure
-- stays written.
pub mod Monad
pub mod Loops
pub mod Bind
pub mod Nonces
pub mod Writes
pub use Monad.{
  Exit, done, fail, panic, waiting, State, Action, pure, raise, unreachable, still_waiting,
}
pub use Monad.{or_raise, some_or, continue}
unfoldable pub use Monad.{◌>>=◌, ◌>>◌, map_error, ask, fetch_add, fetch_sub}
pub use Loops.{Flow, next, stop}
unfoldable pub use Loops.{
  for_each, fold_each, and_then, for_range, scan_blocks, for_windows, window_end, max_block_range,
}
