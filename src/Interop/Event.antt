-- ===== src/Interop/Event.antt =====
-- code/crates/onemoney_interop/src/event.rs: the events from a block on, first those that the node
-- has logged, then those of a subscription. The stream is an action that is given what its consumer
-- does with an event; its errors are converted to the consumer's by `from`.
pub mod Order
use money_interoperability.Prelude.{
  ℕ, zero, suc, Bool, true, false, Option, none, some, List, [], ◌∷◌, if◌then◌else◌, u64_max,
  saturating_add, pair_leb, sort_by,
}
use money_interoperability.World.{
  World, Address, RpcLog, OmInteropLog, Filter, Reply, ok, err, connect_ws, subscribe_logs,
  get_block_number, get_logs, next_log,
}
use money_interoperability.Action.{
  Action, pure, still_waiting, or_raise, ◌>>=◌, ◌>>◌, ask, Flow, next, stop, fold_each, scan_blocks,
}
use money_interoperability.Interop.Error.{InteropError, transport, decode}

abbrev pub Position : Type 0
Position = ℕ × ℕ

abbrev pub unwrap_or_max : Option ℕ → ℕ
unwrap_or_max none = u64_max
unwrap_or_max (some n) = n

unfoldable pub log_position : OmInteropLog → Option Position
log_position log = elim log.block_number [
  | none ↦ none
  | some block ↦ some (block, unwrap_or_max log.log_index)
]

-- `is_some_and(|prev| position <= prev)`
abbrev pub seen : Position → Option Position → Bool
seen position none = false
seen position (some prev) = pair_leb position prev

-- Whether the log is passed on, and `last_position` after the call.
unfoldable pub should_emit : Option Position → Option Position → Bool × Option Position
should_emit none last_position = (true, last_position)
should_emit (some position) last_position =
    if seen position last_position then (false, last_position) else (true, some position)

-- The key by which the logs of a window are sorted.
unfoldable pub sort_key : OmInteropLog → Position
sort_key log = (unwrap_or_max log.block_number, unwrap_or_max log.log_index)

unfoldable pub sort_logs : List OmInteropLog → List OmInteropLog
sort_logs = sort_by (λ a b. pair_leb (sort_key a) (sort_key b))

-- `from_block.checked_sub(1).map(|block| (block, u64::MAX))`
unfoldable pub start_position : ℕ → Option Position
start_position zero = none
start_position (suc block) = some (block, u64_max)

-- Where the queries for logged events end, past the latest block.
unfoldable pub live_start : ℕ → ℕ
live_start latest_block = saturating_add latest_block 5

abbrev pub or_last : Option Position → Option Position → Option Position
or_last none last_position = last_position
or_last (some position) last_position = some position

-- `Filter::new().address(contract).select(start..=end)`
abbrev pub block_range : Address → ℕ → ℕ → Filter
block_range contract start end = record {
  contract = contract;
  topic1 = none;
  topic3 = none;
  from_block = start;
  to_block = end;
}

-- `last_position` after the loop over the logged events.
abbrev pub flow_state : Option Position → Flow (Option Position) (Unit {0}) → Option Position
flow_state d (next acc) = acc
flow_state d (stop b) = d

module _ (w : World) where
  unfoldable pub decode_event : RpcLog → Reply InteropError OmInteropLog
  decode_event log = elim (w.decode_log log.inner) [
    | none ↦ err decode
    | some event ↦ ok (record {
      address = log.address;
      inner = event;
      block_hash = log.block_hash;
      block_number = log.block_number;
      block_timestamp = log.block_timestamp;
      transaction_hash = log.transaction_hash;
      transaction_index = log.transaction_index;
      log_index = log.log_index;
      removed = log.removed;
    })
  ]

  abbrev add_decoded :
      Reply InteropError OmInteropLog
      → Reply InteropError (List OmInteropLog)
      → Reply InteropError (List OmInteropLog)
  add_decoded (err e) rest = err e
  add_decoded (ok log) (err e) = err e
  add_decoded (ok log) (ok logs) = ok (log ∷ logs)

  -- `.map(decode_event).collect::<Result<Vec<_>, _>>()`: the first error, or all events.
  unfoldable pub decode_all : List RpcLog → Reply InteropError (List OmInteropLog)
  decode_all [] = ok []
  decode_all (log ∷ logs) = add_decoded (decode_event log) (decode_all logs)

  module _ {E : Type 0} (from : InteropError → E)
      (consume : OmInteropLog → Action E (Unit {0})) where
    -- The body of the loop over the logged events of a window.
    unfoldable pub emit_logged : OmInteropLog → Option Position → Action E (Option Position)
    emit_logged log last_position = do consume log; pure (or_last (log_position log) last_position)

    unfoldable pub emit_window :
        Address → ℕ → ℕ → Option Position → Action E (Flow (Option Position) (Unit {0}))
    emit_window contract start end last_position = do
      reply ← ask w (get_logs (block_range contract start end))
      historical ← or_raise (λ e. from (transport e)) reply
      decoded ← or_raise from (decode_all historical)
      last_position' ← fold_each (sort_logs decoded) last_position emit_logged
      pure (next last_position')

    unfoldable pub emit_live : OmInteropLog → Option Position → Action E (Option Position)
    emit_live log last_position =
        let (emit, last_position') = should_emit (log_position log) last_position in
        if emit then (do consume log; pure last_position') else pure last_position'

    -- The body of the loop over the subscription, and the rest of the loop.
    unfoldable pub live_step :
        Option RpcLog
        → Option Position
        → (Option Position → Action E (Unit {0}))
        → Action E (Unit {0})
    live_step none last_position rest = pure tt
    live_step (some log) last_position rest = do
      decoded ← or_raise from (decode_event log)
      last_position' ← emit_live decoded last_position
      rest last_position'

    -- The loop over the subscription, for at most so many events; it ends when the subscription does.
    unfoldable pub live_loop : ℕ → Option Position → Action E (Unit {0})
    live_loop zero last_position = still_waiting
    live_loop (suc rounds) last_position =
        ask w next_log >>= λ log. live_step log last_position (live_loop rounds)

    unfoldable pub event_stream : ℕ → ℕ → Address → ℕ → Action E (Unit {0})
    event_stream fuel rounds contract from_block = do
      connected ← ask w connect_ws
      or_raise (λ e. from (transport e)) connected
      let last_position = start_position from_block
      subscribed ← ask w (subscribe_logs contract)
      or_raise (λ e. from (transport e)) subscribed
      latest ← ask w get_block_number
      latest_block ← or_raise (λ e. from (transport e)) latest
      history ←
          scan_blocks fuel from_block (live_start latest_block) last_position (emit_window contract)
      live_loop rounds (flow_state last_position history)
