-- ===== src/Outgoing/Stream/Tallies.antt =====
-- What the relay of checkpoints writes: for each checkpoint its tally, then its burns in their order.
use money_interoperability.Prelude.{
  Bool, true, false, none, ℕ, zero, suc, ◌≡◌, refl, some, List, [], ◌∷◌, ◌++◌, map, wrapping_add,
}
use money_interoperability.World.{
  World, Hash, SendReply, Transaction, Reply, ok, err, update_checkpoint_info, tick,
}
use money_interoperability.Action.{State, Action, for_each}
use money_interoperability.Action.Writes.{Write, writes, sent}
use money_interoperability.Action.Writes.Endings.{
  Traced, Traced-Within, Within-Traced, pure-Traced, bind-Traced, some_or_bind-Traced,
}
use money_interoperability.Action.Writes.Results.{Yields-bind-Within}
use money_interoperability.Action.Writes.Rules.{
  Within, bind_Silent-Within, Within-Silent, ask_bind-Within, pure-Silent, still_waiting-Silent,
}
use money_interoperability.Submit.Writes.{Just, just, send_required-Within}
use money_interoperability.Onemoney.Error as OnemoneyErrors
use money_interoperability.Onemoney.Stream.{checkpoint_step, checkpoint_loop}
use money_interoperability.Outgoing.Error.{
  Error, missing_checkpoint_number, contract_call, contract_reverted, pending_transaction,
}
use money_interoperability.Outgoing.Relay.{process_checkpoint_info}
use money_interoperability.Outgoing.Relay.Bridging.{Burned, process_burn_and_bridge-Traced}
use money_interoperability.Outgoing.Stream.{
  tx_hash_of, relay_transaction, relay_checkpoint, relay_outgoing_events_from_checkpoints,
}
use money_interoperability.Outgoing.Stream.Reads.{AreRead, Attempted, attempt-Yields}

module _ (w : World) where
  -- What one transaction writes: what the relay of its burn does, with its own checkpoint; one
  -- without a checkpoint stops the relay.
  pub data Single (tx : Transaction) : Bool → List Write → Type 0 where
    unnumbered : tx.checkpoint_number ≡ none → Single tx false []
    single :
        (n : ℕ) (b : Bool) (ws : List Write)
        → tx.checkpoint_number ≡ some n
        → Burned w tx.payload tx.hash n b ws
        → Single tx b ws

  -- The transactions in their order: all of them if the relay returns, else up to the one that stops it.
  pub data Relayed : Bool → List Transaction → List Write → Type 0 where
    all_relayed : Relayed true [] []
    stopped_at :
        (tx : Transaction) (txs : List Transaction) (ws : List Write)
        → Single tx false ws
        → Relayed false (tx ∷ txs) ws
    first :
        (b : Bool) (tx : Transaction) (txs : List Transaction) (ws vs : List Write)
        → Single tx true ws
        → Relayed b txs vs
        → Relayed b (tx ∷ txs) (vs ++ ws)

  -- A checkpoint: first the tally with the hashes of all its burns, then the burns.
  pub data Tallied (n : ℕ) (txs : List Transaction) : Bool → List Write → Type 0 where
    only_tallied :
        (r : SendReply)
        → Tallied n txs false (sent (update_checkpoint_info n (map tx_hash_of txs)) r ∷ [])
    tallied :
        (b : Bool) (r : SendReply) (ws : List Write)
        → Relayed b txs ws
        → Tallied n txs b (ws ++ sent (update_checkpoint_info n (map tx_hash_of txs)) r ∷ [])

  -- Checkpoints in the order of their numbers, from `n` on, with the burns that 1Money serves; none
  -- follows one in which the relay stops.
  pub data Checkpoints : ℕ → List Write → Type 0 where
    ended : (n : ℕ) → Checkpoints n []
    last_checkpoint :
        (n : ℕ) (txs : List Transaction) (ws : List Write)
        → AreRead w n txs
        → Tallied n txs false ws
        → Checkpoints n ws
    checkpoint :
        (n : ℕ) (txs : List Transaction) (ws vs : List Write)
        → AreRead w n txs
        → Tallied n txs true ws
        → Checkpoints (wrapping_add n 1) vs
        → Checkpoints n (vs ++ ws)

  relay_transaction-Traced : (tx : Transaction) → Traced (Single tx) (relay_transaction w tx)
  unfolding relay_transaction
  relay_transaction-Traced tx =
      some_or_bind-Traced missing_checkpoint_number tx.checkpoint_number _ unnumbered (λ n e.
        record {
          at = λ s.
              let (ws, b, h) = (process_burn_and_bridge-Traced w tx.payload tx.hash n).at s in
              (ws, single n _ ws e b, h);
        })

  relay_transactions-Traced :
      (txs : List Transaction) → Traced (λ b. Relayed b txs) (for_each txs (relay_transaction w))
  unfolding for_each
  relay_transactions-Traced [] = pure-Traced tt all_relayed
  relay_transactions-Traced (tx ∷ txs) =
      let later : Traced (λ b. Relayed b txs) (for_each txs (relay_transaction w)) =
        relay_transactions-Traced txs in
      bind-Traced (λ b. Relayed b (tx ∷ txs)) (Single tx) (λ b. Relayed b txs)
        (λ ws o. stopped_at tx txs ws o) (λ b ws vs o r. first b tx txs ws vs o r) _ _
        (relay_transaction-Traced tx) (λ _. later)

  process_checkpoint_info-Within :
      (n : ℕ) (hashes : List Hash)
      → Within
          (Just w contract_call (update_checkpoint_info n hashes))
          (process_checkpoint_info w n hashes)
  unfolding process_checkpoint_info
  process_checkpoint_info-Within n hashes =
      bind_Silent-Within _ _
        (send_required-Within w contract_call (update_checkpoint_info n hashes) contract_reverted
          pending_transaction)
        (λ _. pure-Silent tt)

  relay_checkpoint-Traced :
      (n : ℕ) (txs : List Transaction) → Traced (Tallied n txs) (relay_checkpoint w n txs)
  unfolding relay_checkpoint
  relay_checkpoint-Traced n txs =
      bind-Traced (Tallied n txs)
        (λ _. Just w contract_call (update_checkpoint_info n (map tx_hash_of txs)))
        (λ b. Relayed b txs) only_tally with_burns _ _
        (Traced-Within _ (process_checkpoint_info-Within n (map tx_hash_of txs)))
        (λ _. relay_transactions-Traced txs)
    where
      only_tally :
          (ws : List Write)
          → Just w contract_call (update_checkpoint_info n (map tx_hash_of txs)) ws
          → Tallied n txs false ws
      only_tally _ (just r) = only_tallied r

      with_burns :
          (b : Bool) (ws vs : List Write)
          → Just w contract_call (update_checkpoint_info n (map tx_hash_of txs)) ws
          → Relayed b txs vs
          → Tallied n txs b (vs ++ ws)
      with_burns b _ vs (just r) k = tallied b r vs k

  checkpoint_step-Within :
      (n : ℕ) (rest : ℕ → Action Error (Unit {0}))
      → ((k : ℕ) → Within (Checkpoints k) (rest k))
      → (reply : Reply OnemoneyErrors.Error (List Transaction)) → Attempted w n reply
      → Within (Checkpoints n) (checkpoint_step w n (relay_checkpoint w) rest reply)
  unfolding checkpoint_step
  checkpoint_step-Within n rest later (ok txs) read =
      Within-Traced _ (λ b ws c. c)
        (bind-Traced (λ _. Checkpoints n) (Tallied n txs) (λ _. Checkpoints (wrapping_add n 1))
          (λ ws t. last_checkpoint n txs ws read t) (λ b ws vs t c. checkpoint n txs ws vs read t c)
          _ _ (relay_checkpoint-Traced n txs) (λ _. Traced-Within _ (later (wrapping_add n 1))))
  checkpoint_step-Within n rest later (err e) read = later n

  checkpoint_loop-Within :
      (ticks n : ℕ) → Within (Checkpoints n) (checkpoint_loop w ticks (relay_checkpoint w) n)
  unfolding checkpoint_loop
  checkpoint_loop-Within zero n = Within-Silent _ still_waiting-Silent (ended n)
  checkpoint_loop-Within (suc ticks) n =
      ask_bind-Within w tick _ (λ _. refl) (ended n)
        (λ _. Yields-bind-Within _ _ (attempt-Yields w n) (ended n) (
          checkpoint_step-Within n (checkpoint_loop w ticks (relay_checkpoint w))
            (checkpoint_loop-Within ticks)))

  -- From every state and for any number of ticks, the relay of checkpoints writes checkpoint after
  -- checkpoint, with numbers that count up from the first by one: for each, first the tally with the
  -- hashes of the burns that 1Money serves for it, then, in their order, what the relay of each of
  -- these burns writes with the burn's own checkpoint number. A relay of a burn that returns has
  -- registered it; one that does not return is the last of all, as is a tally that fails.
  pub relay_outgoing_events_from_checkpoints-writes :
      (ticks start : ℕ) (s : State)
      → (ws : List Write) × Checkpoints start ws
        × (writes (relay_outgoing_events_from_checkpoints w ticks start s).1.history
            ≡ ws ++ writes s.history)
  unfolding relay_outgoing_events_from_checkpoints
  relay_outgoing_events_from_checkpoints-writes ticks start s =
      (checkpoint_loop-Within ticks start).at s
