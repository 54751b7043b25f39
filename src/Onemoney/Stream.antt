-- ===== src/Onemoney/Stream.antt =====
-- code/crates/relayer/src/onemoney/{mod,stream,transaction}.rs: the streams of epochs, of the
-- burn-and-bridge transactions of each checkpoint, and of certified transactions. A stream is an
-- action that is given what its consumer does with an item.
pub mod Nonces
use money_interoperability.Prelude.{
  ℕ, zero, suc, Bool, true, false, not, Option, none, some, String, List, keep, ◌==◌, if◌then◌else◌,
  wrapping_add,
}
use money_interoperability.World.{
  World, Hash, Fault, Transaction, TxPayload, token_burn_and_bridge, CheckpointTransactions, full,
  hashes, Reply, ok, err, WsMessage, RawEpoch, text, close, other_frame, client_custom,
  get_checkpoint_by_number, connect_async, subscribe, next_message, get_epoch, tick,
}
use money_interoperability.Action.{
  Action, done, fail, panic, waiting, pure, unreachable, still_waiting, or_raise, ◌>>=◌, ◌>>◌, ask,
}
use money_interoperability.Onemoney.Error.{Error, url, http, failed_query, generic}
use money_interoperability.Onemoney.Types.{
  Epoch, epoch_from_raw, CertifiedTransaction, get_transaction_envelope, to_tx_payload,
}

abbrev pub is_burn_and_bridge_payload : TxPayload → Bool
is_burn_and_bridge_payload (token_burn_and_bridge _ _ _ _ _ _ _) = true
is_burn_and_bridge_payload _ = false

-- `matches!(tx.data, TxPayload::TokenBurnAndBridge { .. })`
abbrev pub is_burn_and_bridge : Transaction → Bool
is_burn_and_bridge tx = is_burn_and_bridge_payload tx.payload

abbrev pub full_transactions :
    (Transaction → Bool) → CheckpointTransactions → Reply Error (List Transaction)
full_transactions test (full txs) = ok (keep test txs)
full_transactions test (hashes _) = err generic

abbrev pub is_new_epoch : Option ℕ → ℕ → Bool
is_new_epoch none id = true
is_new_epoch (some last) id = not (last == id)

module _ (w : World) where
  unfoldable pub get_transactions_from_checkpoint :
      ℕ → (Transaction → Bool) → Action Error (List Transaction)
  get_transactions_from_checkpoint checkpoint_number test = do
    client ← ask w client_custom
    or_raise failed_query client
    reply ← ask w (get_checkpoint_by_number checkpoint_number)
    checkpoint ← or_raise failed_query reply
    or_raise (λ e. e) (full_transactions test checkpoint)

  -- An action whose error the caller handles.
  unfoldable pub attempt : {E F A : Type 0} → Action E A → Action F (Reply E A)
  attempt m s =
      let (r, s') = m s in
      elim r [
        | done a ↦ (done (ok a), s')
        | fail e ↦ (done (err e), s')
        | panic ↦ (panic, s')
        | waiting ↦ (waiting, s')
      ]

  module _ {E : Type 0} where
    -- The two arms of the `match` on a checkpoint's transactions, and the rest of the loop from the
    -- checkpoint that is next.
    unfoldable pub checkpoint_step :
        ℕ
        → (ℕ → List Transaction → Action E (Unit {0}))
        → (ℕ → Action E (Unit {0}))
        → Reply Error (List Transaction)
        → Action E (Unit {0})
    checkpoint_step current_checkpoint_id consume rest (ok transactions) = do
      consume current_checkpoint_id transactions
      rest (wrapping_add current_checkpoint_id 1)
    checkpoint_step current_checkpoint_id consume rest (err _) = rest current_checkpoint_id

    -- The loop of `transaction_stream_from_checkpoint`, for so many ticks: a checkpoint that cannot
    -- be read is tried again at the next tick.
    unfoldable pub checkpoint_loop :
        ℕ → (ℕ → List Transaction → Action E (Unit {0})) → ℕ → Action E (Unit {0})
    checkpoint_loop zero consume current_checkpoint_id = still_waiting
    checkpoint_loop (suc ticks) consume current_checkpoint_id = ask w tick >>= λ _.
        attempt (get_transactions_from_checkpoint current_checkpoint_id is_burn_and_bridge)
        >>= checkpoint_step current_checkpoint_id consume (checkpoint_loop ticks consume)

    module _ (parse : String → Option CertifiedTransaction)
        (consume : TxPayload → Hash → Action E (Unit {0})) where
      abbrev pub consume_certified : Option CertifiedTransaction → Action E (Unit {0})
      consume_certified none = pure tt
      consume_certified (some c) =
          let tx = to_tx_payload w (get_transaction_envelope c) in
          if is_burn_and_bridge_payload tx then consume tx c.result.tx_hash else pure tt

      -- The body of the loop over the messages, and the rest of the loop: an error of the
      -- connection panics, a closing frame or the end of the messages ends the stream.
      unfoldable pub message_step :
          Action E (Unit {0}) → Option (Reply Fault WsMessage) → Action E (Unit {0})
      message_step rest none = pure tt
      message_step rest (some (err _)) = unreachable
      message_step rest (some (ok (text raw_tx))) = consume_certified (parse raw_tx) >> rest
      message_step rest (some (ok close)) = pure tt
      message_step rest (some (ok other_frame)) = rest

      unfoldable pub message_loop : ℕ → Action E (Unit {0})
      message_loop zero = still_waiting
      message_loop (suc messages) = ask w next_message >>= message_step (message_loop messages)

      abbrev pub unwrap : Reply Fault (Unit {0}) → Action E (Unit {0})
      unwrap (ok _) = pure tt
      unwrap (err _) = unreachable

      unfoldable pub certified_transaction_stream : ℕ → Action E (Unit {0})
      certified_transaction_stream messages = do
        connected ← ask w connect_async
        unwrap connected
        subscribed ← ask w subscribe
        unwrap subscribed
        message_loop messages

    -- The body of the loop of `epoch_stream`, and the rest of the loop from the epoch seen last: an
    -- epoch is passed on if its id is not that one; an error is passed on and ends the stream.
    unfoldable pub epoch_step :
        Option ℕ
        → (Reply Error Epoch → Action E (Unit {0}))
        → (Option ℕ → Action E (Unit {0}))
        → Reply Fault RawEpoch
        → Action E (Unit {0})
    epoch_step last_epoch_id consume rest (err e) = consume (err (http e))
    epoch_step last_epoch_id consume rest (ok raw) =
        if is_new_epoch last_epoch_id raw.epoch_id
        then (consume (ok (epoch_from_raw raw)) >> rest (some raw.epoch_id))
        else rest last_epoch_id

    -- The loop, for so many polls.
    unfoldable pub epoch_loop :
        ℕ → String → (Reply Error Epoch → Action E (Unit {0})) → Option ℕ → Action E (Unit {0})
    epoch_loop zero request_url consume last_epoch_id = still_waiting
    epoch_loop (suc polls) request_url consume last_epoch_id = ask w tick >>= λ _.
        ask w (get_epoch request_url)
        >>= epoch_step last_epoch_id consume (epoch_loop polls request_url consume)

    abbrev pub epochs_from :
        ℕ → (Reply Error Epoch → Action E (Unit {0})) → Reply Fault String → Action E (Unit {0})
    epochs_from polls consume (err e) = consume (err (url e))
    epochs_from polls consume (ok request_url) = epoch_loop polls request_url consume none

    unfoldable pub epoch_stream :
        ℕ → String → (Reply Error Epoch → Action E (Unit {0})) → Action E (Unit {0})
    epoch_stream polls node_url consume =
        epochs_from polls consume (w.join_url node_url "v1/governances/epoch")
