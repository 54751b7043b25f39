-- ===== src/Incoming/Events.antt =====
-- code/crates/relayer/src/incoming/mod.rs: an event of the stream is checked and given to its
-- handler. The clones of the shared nonce are the counter in the state.
pub mod Delivery
pub mod Due
pub mod Linked
use money_interoperability.Prelude.{ℕ, Bool, if◌then◌else◌}
use money_interoperability.World.{
  World, Hash, OmInteropLog, OmInteropEvents, om_interop_received, om_interop_sent, client_custom,
}
use money_interoperability.Action.{Action, pure, or_raise, some_or, ◌>>=◌, ◌>>◌, ask}
use money_interoperability.Config.{Config}
use money_interoperability.Interop.Event.{event_stream}
use money_interoperability.Incoming.Error.{
  Error, event_stream as event_stream_error, onemoney, missing_block_number, missing_log_index,
  missing_transaction_hash,
}
use money_interoperability.Incoming.Handlers.{
  Relayer1MoneyContext, new_context, should_process_nonce, handle_om_interop_received,
  handle_om_interop_sent,
}

module _ (w : World) where
  abbrev when : Bool → Action Error (Unit {0}) → Action Error (Unit {0})
  when test body = if test then body else pure tt

  -- The `match` on the event: two kinds are handled if their nonce is due, the others ignored.
  unfoldable pub dispatch :
      ℕ → Relayer1MoneyContext → Hash → OmInteropEvents → Action Error (Unit {0})
  dispatch rounds ctx tx_hash (om_interop_received inner) = do
    due ← should_process_nonce w rounds ctx inner.nonce
    when due (handle_om_interop_received w ctx inner tx_hash >> pure tt)
  dispatch rounds ctx tx_hash (om_interop_sent inner) = do
    due ← should_process_nonce w rounds ctx inner.nonce
    when due (handle_om_interop_sent w ctx inner >> pure tt)
  dispatch rounds ctx tx_hash _ = pure tt

  unfoldable pub process_event : ℕ → Config → OmInteropLog → Action Error (Unit {0})
  process_event rounds config event = do
    client ← ask w client_custom
    or_raise onemoney client
    relayer_ctx ← new_context w config
    some_or missing_block_number event.block_number
    some_or missing_log_index event.log_index
    tx_hash ← some_or missing_transaction_hash event.transaction_hash
    if event.removed then pure tt else dispatch rounds relayer_ctx tx_hash event.inner

  -- `try_for_each` over the stream: the first error of the stream or of an event ends it.
  unfoldable pub relay_incoming_events : ℕ → ℕ → ℕ → Config → ℕ → Action Error (Unit {0})
  relay_incoming_events fuel events rounds config from_block =
      event_stream w event_stream_error (process_event rounds config) fuel events
        config.interop_contract_address from_block
