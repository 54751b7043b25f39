-- ===== src/Contracts/OmInterop/Lifecycle.antt =====
-- From the report of a checkpoint to its completion by its last burn.
use money_interoperability.Prelude.{
  wrapping_add, not, ℕ, zero, suc, ◌+◌, ◌<◌, ◌≡◌, refl, Bool, false, true, List, [], ◌∷◌, length,
  All, arith, ◌==◌, ltb, inl, inr, ◌⊎◌, ◌∙◌, u64_mod,
}
use money_interoperability.World.{OmInteropEvents, Hash, Reply, ok, BridgeTo}
use money_interoperability.Contracts.Mapping.{put, ◌>>=◌}
use money_interoperability.Contracts.OmInterop.Bridge.{
  latest_inbound_nonce, bridge_to, bridge_validated, quote_bridge_to_validated, dispatch_by,
}
use money_interoperability.Contracts.OmInterop.Checkpoints.{
  is_complete, prune_loop, try_prune_checkpoint, count_completed, complete_bridge,
  record_processed_bridge, store_tally, update_checkpoint_info, get_latest_completed_checkpoint,
}
use money_interoperability.Contracts.OmInterop.Reports.{
  Stands, AreNew, restored-Stands, report-Stands,
}
use money_interoperability.Contracts.OmInterop.State.{Layout, Env, Error, CheckpointTally}
use money_interoperability.Contracts.OmInterop.Untouched.{Spared, increase-Spared, enforce-Spared}
use money_interoperability.Contracts.Outcome.{
  Ends, accepted, refused, returned, revert_if-Ends, bind-Ends, any-Ends, if-Ends, map-Ends,
}

count_completed-Ends :
    (t : CheckpointTally)
    → Ends {E = Error}
        (λ t'. (t'.certified ≡ t.certified) × (t'.completed ≡ t.completed + 1))
        (λ _. Unit {0})
        (count_completed t)
unfolding count_completed
count_completed-Ends t = revert_if-Ends _ _ _ tt λ _. accepted (refl, refl)

-- Calls of `bridgeTo` that are all accepted.
unfoldable pub bridge_each : List (Env × BridgeTo) → Layout → Reply Error Layout
bridge_each [] s = ok s
bridge_each ((env, req) ∷ reqs) s = do s' ← bridge_to env req s; bridge_each reqs s'

module _ (n : ℕ) where
  prune_loop-past :
      (gas : ℕ) (s : Layout)
      → n + 1 < u64_mod
      → s.earliest_incompleted_checkpoint ≡ n
      → is_complete (s.checkpoint_tallies n) ≡ true
      → is_complete (s.checkpoint_tallies (n + 1)) ≡ false
      → Ends (λ s'. s'.earliest_incompleted_checkpoint ≡ n + 1) (λ _. Unit) (prune_loop gas s)
  unfolding prune_loop
  prune_loop-past zero s small at done next = refused tt
  prune_loop-past (suc zero) s small at done next = rw (at, done) (refused tt)
  prune_loop-past (suc (suc gas)) s small at done next =
      let stepped : wrapping_add n 1 ≡ n + 1 = omega arith in
      let apart : (n == n + 1) ≡ false = ground arith in
      rw (at, done, stepped, apart, next) (accepted refl)

  -- One more burn is bridged: the checkpoint waits for others, or is complete and pruned.
  abbrev Moved : ℕ → ℕ → Layout → Type 0
  Moved c k s = (Stands n c k s × (k < c)) ⊎ ((s.earliest_incompleted_checkpoint ≡ n + 1) × (k ≡ c))

  complete_bridge-Moved :
      (gas : ℕ) (h : Hash) (c k : ℕ) (s : Layout)
      → n + 1 < u64_mod
      → Stands n c k s
      → k < c
      → Ends (Moved c (k + 1)) (λ _. Unit) (complete_bridge gas h n s)
  unfolding complete_bridge try_prune_checkpoint
  complete_bridge-Moved gas h c k s small st waits =
      bind-Ends _ _ (count_completed-Ends (s.checkpoint_tallies n)) λ t (same, up).
        let st' =
          restored-Stands n s t (put s.checkpoint_ids_by_source_hash h n) st
            (omega (arith, same, st.certifies)) (omega (arith, up, st.completes)) in
        if-Ends (not (is_complete ((store_tally n s t).checkpoint_tallies n))) _ _
          (λ incomplete. accepted (inl (st', ground (arith, st'.certifies, st'.completes))))
          (λ complete.
            map-Ends _ (λ s' at. inr (at, ground (arith, st'.certifies, st'.completes))) (λ _ _. tt)
              (prune_loop-past gas _ small st'.earliest (ground arith) st'.next_open))

  Stands-Spared :
      {c k : ℕ} {s : Layout} (r : Reply Error Layout)
      → Stands n c k s
      → Spared s r
      → Ends (Stands n c k) (λ _. Unit) r
  Stands-Spared r st =
      map-Ends r
        (λ s' (e, t, _). record {
          earliest = e ∙ st.earliest;
          certifies = rw t st.certifies;
          completes = rw t st.completes;
          next_open = rw t st.next_open;
        })
        (λ _ _. tt)

  -- A burn that is marked as bridged.
  marked :
      {c k : ℕ} (s : Layout) (processed : Hash → Bool)
      → Stands n c k s
      → Stands n c k (record s { processed_bridges = processed })
  marked s processed st = record {
    earliest = st.earliest;
    certifies = st.certifies;
    completes = st.completes;
    next_open = st.next_open;
  }

  module _ (small : n + 1 < u64_mod) (positive : 0 < n) where
    record_processed_bridge-Moved :
        (gas : ℕ) (h : Hash) (id c k : ℕ) (s : Layout)
        → id ≡ n
        → Stands n c k s
        → k < c
        → Ends (Moved c (k + 1)) (λ _. Unit) (record_processed_bridge gas h id s)
    unfolding record_processed_bridge
    record_processed_bridge-Moved gas h id c k s here st waits = rw here (
        if-Ends (ltb 0 n) _ _ (λ _. complete_bridge-Moved gas h c k _ small (marked s _ st) waits)
          (λ is_zero. absurd (ground arith)))

    emitted-Moved :
        {c k : ℕ} (s : Layout) (es : List OmInteropEvents)
        → Moved c k s
        → Moved c k (record s { events = es })
    emitted-Moved s es (inl (st, waits)) = inl (
      record {
        earliest = st.earliest;
        certifies = st.certifies;
        completes = st.completes;
        next_open = st.next_open;
      },
      waits,
    )
    emitted-Moved s es (inr past) = inr past

    module _ (env : Env) (req : BridgeTo) (here : req.checkpoint_id ≡ n) where
      bridge_validated-Moved :
          (c k : ℕ) (s : Layout)
          → Stands n c k s
          → k < c
          → Ends (Moved c (k + 1)) (λ _. Unit) (bridge_validated env req s)
      unfolding bridge_validated
      bridge_validated-Moved c k s st waits =
          bind-Ends _ _ (Stands-Spared _ st (increase-Spared s)) λ s₁ st₁.
            bind-Ends _ _ (any-Ends (dispatch_by _ env _ req s₁)) λ refund _.
              bind-Ends _ _
                (record_processed_bridge-Moved env.gas req.source_hash req.checkpoint_id c k s₁ here
                  st₁ waits)
                λ s₂ moved.
                  bind-Ends _ _ (any-Ends (latest_inbound_nonce s₂))
                    λ _ _. accepted (emitted-Moved s₂ _ moved)

      bridge_to-Moved :
          (c k : ℕ) (s : Layout)
          → Stands n c k s
          → k < c
          → Ends (Moved c (k + 1)) (λ _. Unit) (bridge_to env req s)
      unfolding bridge_to
      bridge_to-Moved c k s st waits = revert_if-Ends _ _ _ tt λ _. revert_if-Ends _ _ _ tt λ _.
          bind-Ends _ _ (any-Ends (quote_bridge_to_validated req s)) λ _ _.
            bind-Ends _ _ (Stands-Spared _ st (enforce-Spared req.from req.bbnonce s))
              λ s₁ st₁. bridge_validated-Moved c k s₁ st₁ waits

    ended :
        (reqs : List (Env × BridgeTo)) (s : Layout)
        → length reqs ≡ 0
        → s.earliest_incompleted_checkpoint ≡ n + 1
        → Ends (λ s'. s'.earliest_incompleted_checkpoint ≡ n + 1) (λ _. Unit) (bridge_each reqs s)
    unfolding bridge_each
    ended [] s none_left past = accepted past
    ended (r ∷ reqs) s none_left past = absurd (omega (arith, none_left))

    -- Transfers one after the other, all of them for the checkpoint.
    bridge_each-Moved :
        (reqs : List (Env × BridgeTo)) (c k : ℕ) (s : Layout)
        → All (λ r. r.1.checkpoint_id ≡ n) reqs
        → Stands n c k s
        → k < c
        → k + length reqs ≡ c
        → Ends (λ s'. s'.earliest_incompleted_checkpoint ≡ n + 1) (λ _. Unit) (bridge_each reqs s)
    unfolding bridge_each
    bridge_each-Moved [] c k s here st waits counts = absurd (omega (arith, waits, counts))
    bridge_each-Moved ((env, req) ∷ reqs) c k s here st waits counts =
        bind-Ends _ _ (bridge_to-Moved env req here.0 c k s st waits) λ s' moved. elim moved [
          | inl (st', waits') ↦
              bridge_each-Moved reqs c (k + 1) s' here.1 st' waits' (omega (arith, counts))
          | inr (past, all) ↦ ended reqs s' (omega (arith, counts, all)) past
        ]

    -- Let `n` be the earliest incomplete checkpoint, above 0 and below 2^64 - 1, with nothing certified
    -- or completed, and the next one incomplete too. If `updateCheckpointInfo` reports for `n` a
    -- non-empty list of distinct burns, none of them recorded or bridged before, and after it as many
    -- calls of `bridgeTo` for `n` are accepted, then `n` is the latest completed checkpoint.
    pub reported_checkpoint_completes :
        (env : Env) (hs : List Hash) (reqs : List (Env × BridgeTo)) (s s₁ s₂ : Layout)
        → Stands n 0 0 s
        → AreNew s.checkpoint_ids_by_source_hash s.processed_bridges hs
        → 0 < length hs
        → length reqs ≡ length hs
        → All (λ r. r.1.checkpoint_id ≡ n) reqs
        → update_checkpoint_info env n hs s ≡ ok s₁
        → bridge_each reqs s₁ ≡ ok s₂
        → get_latest_completed_checkpoint s₂ ≡ n
    unfolding get_latest_completed_checkpoint
    reported_checkpoint_completes env hs reqs s s₁ s₂ st new some_hash counts here reported
          bridged =
        let st₁ = returned _ s₁ (report-Stands n env hs s st new) reported in
        let past =
          returned _ s₂
            (bridge_each-Moved reqs (length hs) 0 s₁ here st₁ some_hash (omega (arith, counts)))
            bridged in
        ground (arith, past)
