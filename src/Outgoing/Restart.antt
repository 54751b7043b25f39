-- ===== src/Outgoing/Restart.antt =====
-- The restart of the relay of checkpoints against the contract: the checkpoint that it starts from is
-- the latest one that is complete, for which the contract takes no tally any more.
use money_interoperability.Prelude.{
  ◌∷◌, ℕ, suc, ◌-◌, ◌<◌, ◌≡◌, refl, ap, List, true, false, not, ◌&&◌, ltb, ◌==◌, arith, keep,
}
use money_interoperability.World.{
  World, History, Hash, Fault, Transaction, Reply, ok, err, reverted, send, update_checkpoint_info,
  get_latest_completed_checkpoint, client_custom, get_checkpoint_by_number, full,
}
use money_interoperability.Action.{Action, State, Exit, done, fail, ◌>>=◌, ask, fetch_add}
use money_interoperability.Submit.{send_required, settle_required}
use money_interoperability.Onemoney.Stream.{
  is_burn_and_bridge, checkpoint_loop, checkpoint_step, attempt, get_transactions_from_checkpoint,
}
use money_interoperability.Outgoing.Error.{Error, contract_reverted}
use money_interoperability.Outgoing.Recovery.{get_earliest_incomplete_checkpoint_number}
use money_interoperability.Outgoing.Relay.{process_checkpoint_info}
use money_interoperability.Outgoing.Stream.{
  relay_outgoing_events_from_checkpoints, relay_checkpoint,
}
use money_interoperability.Contracts.Mapping as Solidity
use money_interoperability.Contracts.Mapping.{revert_if}
use money_interoperability.Contracts.OmInterop.Checkpoints as Checkpoints
use money_interoperability.Contracts.OmInterop.State as OmInterop
use money_interoperability.Contracts.OmInterop.State.{Layout, Env, checkpoint_completed_and_pruned}

-- A world whose contract has the storage `s`, and whose node has the checkpoint to start from.
pub record Runs (w : World) (s : Layout) (env : Env) (fault_of : OmInterop.Error → Fault)
    (txs : List Transaction) : Type 0 where
  pub completed :
      (h : History)
      → w.respond h get_latest_completed_checkpoint
        ≡ ok (Checkpoints.get_latest_completed_checkpoint s)
  pub refused :
      (h : History) (id : ℕ) (hs : List Hash) (n : ℕ) (e : OmInterop.Error)
      → Checkpoints.update_checkpoint_info env id hs s ≡ err e
      → w.respond h (send (update_checkpoint_info id hs) n) ≡ reverted (fault_of e)
  pub client : (h : History) → w.respond h client_custom ≡ ok tt
  pub read :
      (h : History)
      → w.respond h (get_checkpoint_by_number (Checkpoints.get_latest_completed_checkpoint s))
        ≡ ok (full txs)

-- The contract takes no tally of a checkpoint before the earliest incomplete one.
pub pruned_refused :
    (env : Env) (id : ℕ) (hs : List Hash) (s : Layout)
    → s.relayer ≡ env.sender
    → 0 < id
    → id < s.earliest_incompleted_checkpoint
    → Checkpoints.update_checkpoint_info env id hs s ≡ err (checkpoint_completed_and_pruned id)
unfolding Checkpoints.update_checkpoint_info revert_if
pruned_refused env id hs s authorized pos old =
    let sender_ok : not (s.relayer == env.sender) ≡ false = ground arith in
    let is_old : (not (id == 0) && ltb id s.earliest_incompleted_checkpoint) ≡ true =
      ground arith in
    rw (sender_ok, is_old, Solidity.◌>>=◌) refl

latest_lem :
    (s : Layout)
    → 1 < s.earliest_incompleted_checkpoint
    → Checkpoints.get_latest_completed_checkpoint s ≡ s.earliest_incompleted_checkpoint - 1
unfolding Checkpoints.get_latest_completed_checkpoint
latest_lem s h = ground arith

-- An attempt that returns.
attempt_done :
    (w : World) {E F A B : Type 0} (m : Action E A) (f : Reply E A → Action F B) (st t : State)
    (a : A)
    → m st ≡ (done a, t)
    → (attempt w m >>= f) st ≡ f (ok a) t
unfolding attempt ◌>>=◌
attempt_done w {E} {A} m f st t a e =
    rw (e, attempt) (ap (λ (p : Exit E A × State). f (ok a) p.1) e)

module _ (w : World) (s : Layout) (env : Env) (fault_of : OmInterop.Error → Fault)
    (txs : List Transaction) (runs : Runs w s env fault_of txs)
    (authorized : s.relayer ≡ env.sender) (later : 1 < s.earliest_incompleted_checkpoint) where
  abbrev last : ℕ
  last = s.earliest_incompleted_checkpoint - 1

  abbrev refusal : Exit Error (Unit {0})
  refusal = fail (contract_reverted (fault_of (checkpoint_completed_and_pruned last)))

  tally_refused :
      (burns : List Transaction) (st : State) → (relay_checkpoint w last burns st).0 ≡ refusal
  unfolding relay_checkpoint process_checkpoint_info send_required settle_required ◌>>=◌ ask
      fetch_add
  tally_refused burns st =
      let reply : (h : History) (hs : List Hash) (n : ℕ)
          → w.respond h (send (update_checkpoint_info last hs) n)
            ≡ reverted (fault_of (checkpoint_completed_and_pruned last)) =
        λ h hs n.
          runs.refused h last hs n _
            (pruned_refused env last hs s authorized (omega arith) (omega arith)) in
      rw reply refl

  -- The state after the checkpoint is read.
  abbrev asked : State → State
  asked st = record st {
    history =
        record { call = get_checkpoint_by_number last; reply = ok (full txs) }
        ∷ record { call = client_custom; reply = ok tt }
        ∷ st.history;
  }

  checkpoint_read :
      (st : State)
      → get_transactions_from_checkpoint w last is_burn_and_bridge st
        ≡ (done (keep is_burn_and_bridge txs), asked st)
  unfolding get_transactions_from_checkpoint ◌>>=◌ ask
  checkpoint_read st =
      let read : (h : History) → w.respond h (get_checkpoint_by_number last) ≡ ok (full txs) =
        λ h. rw (latest_lem s later) at (runs.read h) in
      rw (runs.client, read) refl

  step_refused :
      (burns : List Transaction) (rest : ℕ → Action Error (Unit {0})) (st : State)
      → (checkpoint_step w last (relay_checkpoint w) rest (ok burns) st).0 ≡ refusal
  unfolding checkpoint_step ◌>>=◌
  step_refused burns rest st = rw (tally_refused burns st) refl

  loop_refused :
      (ticks : ℕ) (st : State)
      → (checkpoint_loop w (suc ticks) (relay_checkpoint w) last st).0 ≡ refusal
  unfolding checkpoint_loop ask ◌>>=◌
  loop_refused ticks st = rw (attempt_done w _ _ _ _ _ (checkpoint_read _)) (step_refused _ _ _)

  -- If the contract's storage has a completed checkpoint after 0, a start of the relay of checkpoints
  -- at the latest completed checkpoint, which it asks the contract for, fails with the contract's
  -- revert for a pruned checkpoint at the first checkpoint that it reads.
  pub restart_refused :
      (ticks : ℕ) (st : State)
      → ((get_earliest_incomplete_checkpoint_number w
            >>= relay_outgoing_events_from_checkpoints w (suc ticks))
          st).0
        ≡ refusal
  unfolding get_earliest_incomplete_checkpoint_number relay_outgoing_events_from_checkpoints ask
      ◌>>=◌
  restart_refused ticks st = rw (runs.completed, latest_lem s later) (loop_refused ticks _)
