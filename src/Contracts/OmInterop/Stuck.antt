-- ===== src/Contracts/OmInterop/Stuck.antt =====
-- A checkpoint without burns never completes.
use money_interoperability.Prelude.{
  ℕ, zero, suc, ◌-◌, ◌≡◌, ◌≢◌, refl, false, List, [], ◌∷◌, All, arith, ◌==◌, ltb, Bool-cases, inl,
  inr, ◌∙◌,
}
use money_interoperability.World.{Hash, Reply, ok, err, BridgeTo}
use money_interoperability.Contracts.OmInterop.Admin.{
  set_operator, set_relayer, set_price_oracle, map_token_addresses, Method, initializing,
  setting_operator, setting_relayer, setting_price_oracle, mapping_tokens, setting_rate_limit,
  bridging_from, bridging_to, updating_checkpoint, execute, history,
}
use money_interoperability.Contracts.OmInterop.Bridge.{
  latest_inbound_nonce, bridge_to, bridge_validated, quote_bridge_to_validated, dispatch_by,
}
use money_interoperability.Contracts.OmInterop.Checkpoints.{
  is_complete, prune_loop, try_prune_checkpoint, count_certified, count_completed, count_processed,
  certify_new, certify, certify_all, complete_bridge, record_processed_bridge,
  update_checkpoint_info, get_latest_completed_checkpoint,
}
use money_interoperability.Contracts.OmInterop.RateLimits.{set_rate_limit}
use money_interoperability.Contracts.OmInterop.State.{Layout, Env, Error, CheckpointTally, settle}
use money_interoperability.Contracts.OmInterop.Untouched.{
  Spared, increase-Spared, enforce-Spared, stored_limit-Untouched, bridge_from-Spared,
}
use money_interoperability.Contracts.Outcome.{
  Ends, accepted, refused, revert_if-Ends, bind-Ends, any-Ends, if-Ends, map-Ends,
}

-- The earliest incomplete checkpoint is one of which no burn is certified.
pub record IsStalled (n : ℕ) (s : Layout) : Type 0 where
  pub earliest : s.earliest_incompleted_checkpoint ≡ n
  pub uncertified : (s.checkpoint_tallies n).certified ≡ 0

-- A call that does not initialise again and certifies no burn of the checkpoint.
abbrev pub Spares : ℕ → Method → Type 0
Spares n (initializing _ _ _ _) = ⊥
Spares n (updating_checkpoint id hs) = id ≡ n → hs ≡ []
Spares n _ = Unit

module _ (n : ℕ) where
  abbrev Stays : Reply Error Layout → Type 0
  Stays = Ends (IsStalled n) (λ _. Unit)

  open_earliest :
      (s : Layout)
      → IsStalled n s
      → is_complete (s.checkpoint_tallies s.earliest_incompleted_checkpoint) ≡ false
  open_earliest s st = rw st.earliest (ground (arith, st.uncertified))

  prune_loop-Stays : (gas : ℕ) (s : Layout) → IsStalled n s → Stays (prune_loop gas s)
  unfolding prune_loop
  prune_loop-Stays zero s st = refused tt
  prune_loop-Stays (suc gas) s st = rw (open_earliest s st) (accepted st)

  try_prune_checkpoint-Stays :
      (gas id : ℕ) (s : Layout) → IsStalled n s → Stays (try_prune_checkpoint gas id s)
  unfolding try_prune_checkpoint
  try_prune_checkpoint-Stays gas id s st =
      if-Ends _ _ _ (λ _. accepted st) (λ _. prune_loop-Stays gas s st)

  -- `completed` grows only.
  count_completed-kept :
      (t : CheckpointTally)
      → Ends {E = Error} (λ t'. t'.certified ≡ t.certified) (λ _. Unit {0}) (count_completed t)
  unfolding count_completed
  count_completed-kept t = revert_if-Ends _ _ _ tt λ _. accepted refl

  certify-Stays : (id : ℕ) (h : Hash) (s : Layout) → id ≢ n → IsStalled n s → Stays (certify id h s)
  unfolding certify certify_new
  certify-Stays id h s other st =
      if-Ends (s.checkpoint_ids_by_source_hash h == 0) _ _
        (λ _. bind-Ends _ _ (any-Ends (count_certified _)) λ t _.
          bind-Ends _ _ (any-Ends (count_processed _ t)) λ t' _.
            accepted
              (record { earliest = st.earliest; uncertified = ground (arith, st.uncertified) }))
        (λ _. accepted st)

  certify_all-Stays :
      (id : ℕ) (hs : List Hash) (s : Layout) → id ≢ n → IsStalled n s → Stays (certify_all id hs s)
  unfolding certify_all
  certify_all-Stays id [] s other st = accepted st
  certify_all-Stays id (h ∷ hs) s other st =
      bind-Ends _ _ (certify-Stays id h s other st) λ s' st'. certify_all-Stays id hs s' other st'

  certified_none :
      (id : ℕ) (hs : List Hash) (s : Layout)
      → (id ≡ n → hs ≡ [])
      → IsStalled n s
      → Stays (certify_all id hs s)
  certified_none id hs s spares st = elim (Bool-cases (id == n)) [
    | inl same ↦ rw (spares (ground arith)) (unfold certify_all in accepted st)
    | inr other ↦ certify_all-Stays id hs s (ground arith) st
  ]

  update_checkpoint_info-Stays :
      (env : Env) (id : ℕ) (hs : List Hash) (s : Layout)
      → (id ≡ n → hs ≡ [])
      → IsStalled n s
      → Stays (update_checkpoint_info env id hs s)
  unfolding update_checkpoint_info
  update_checkpoint_info-Stays env id hs s spares st = revert_if-Ends _ _ _ tt λ _.
      revert_if-Ends _ _ _ tt λ _. revert_if-Ends _ _ _ tt λ _.
        bind-Ends _ _ (certified_none id hs s spares st)
          λ s' st'. try_prune_checkpoint-Stays env.gas id s' st'

  complete_bridge-Stays :
      (gas : ℕ) (h : Hash) (id : ℕ) (s : Layout)
      → IsStalled n s
      → Stays (complete_bridge gas h id s)
  unfolding complete_bridge
  complete_bridge-Stays gas h id s st =
      bind-Ends _ _ (count_completed-kept (s.checkpoint_tallies id)) λ t same.
        try_prune_checkpoint-Stays gas id _
          (record { earliest = st.earliest; uncertified = ground (arith, st.uncertified) })

  record_processed_bridge-Stays :
      (gas : ℕ) (h : Hash) (id : ℕ) (s : Layout)
      → IsStalled n s
      → Stays (record_processed_bridge gas h id s)
  unfolding record_processed_bridge
  record_processed_bridge-Stays gas h id s st =
      if-Ends (ltb 0 id) _ _
        (λ _.
          complete_bridge-Stays gas h id _
            (record { earliest = st.earliest; uncertified = st.uncertified }))
        (λ _. accepted (record { earliest = st.earliest; uncertified = st.uncertified }))

  Stays-Spared : {s : Layout} (r : Reply Error Layout) → IsStalled n s → Spared s r → Stays r
  Stays-Spared r st =
      map-Ends r
        (λ s' (e, t, _). record { earliest = e ∙ st.earliest; uncertified = rw t st.uncertified })
        (λ _ _. tt)

  bridge_validated-Stays :
      (env : Env) (req : BridgeTo) (s : Layout) → IsStalled n s → Stays (bridge_validated env req s)
  unfolding bridge_validated
  bridge_validated-Stays env req s st =
      bind-Ends _ _ (Stays-Spared _ st (increase-Spared s)) λ s₁ st₁.
        bind-Ends _ _ (any-Ends (dispatch_by _ env _ req s₁)) λ refund _.
          bind-Ends _ _
            (record_processed_bridge-Stays env.gas req.source_hash req.checkpoint_id s₁ st₁)
            λ s₂ st₂.
              bind-Ends _ _ (any-Ends (latest_inbound_nonce s₂))
                λ _ _. accepted (record { earliest = st₂.earliest; uncertified = st₂.uncertified })

  bridge_to-Stays :
      (env : Env) (req : BridgeTo) (s : Layout) → IsStalled n s → Stays (bridge_to env req s)
  unfolding bridge_to
  bridge_to-Stays env req s st = revert_if-Ends _ _ _ tt λ _. revert_if-Ends _ _ _ tt λ _.
      bind-Ends _ _ (any-Ends (quote_bridge_to_validated req s)) λ _ _.
        bind-Ends _ _ (Stays-Spared _ st (enforce-Spared req.from req.bbnonce s))
          λ s₁ st₁. bridge_validated-Stays env req s₁ st₁

  execute-Stays :
      (env : Env) (method : Method) (s : Layout)
      → Spares n method
      → IsStalled n s
      → Stays (execute env method s)
  unfolding execute set_operator set_relayer set_price_oracle map_token_addresses set_rate_limit
  execute-Stays env (initializing owner operator relayer oracle) s sp st = absurd sp
  execute-Stays env (setting_operator new) s sp st = revert_if-Ends _ _ _ tt λ _.
      revert_if-Ends _ _ _ tt
        λ _. accepted (record { earliest = st.earliest; uncertified = st.uncertified })
  execute-Stays env (setting_relayer new) s sp st = revert_if-Ends _ _ _ tt λ _.
      revert_if-Ends _ _ _ tt
        λ _. accepted (record { earliest = st.earliest; uncertified = st.uncertified })
  execute-Stays env (setting_price_oracle new) s sp st = revert_if-Ends _ _ _ tt λ _.
      revert_if-Ends _ _ _ tt λ _. revert_if-Ends _ _ _ tt λ _.
        revert_if-Ends _ _ _ tt
          λ _. accepted (record { earliest = st.earliest; uncertified = st.uncertified })
  execute-Stays env (mapping_tokens om sc protocol) s sp st = revert_if-Ends _ _ _ tt λ _.
      revert_if-Ends _ _ _ tt λ _.
        revert_if-Ends _ _ _ tt
          λ _. accepted (record { earliest = st.earliest; uncertified = st.uncertified })
  execute-Stays env (setting_rate_limit token limit window) s sp st =
      revert_if-Ends _ _ _ tt λ _.
        Stays-Spared _ st (accepted (stored_limit-Untouched env.timestamp token limit window s))
  execute-Stays env (bridging_from to amount) s sp st =
      Stays-Spared _ st (bridge_from-Spared env to amount s)
  execute-Stays env (bridging_to req) s sp st = bridge_to-Stays env req s st
  execute-Stays env (updating_checkpoint id hs) s sp st =
      update_checkpoint_info-Stays env id hs s sp st

  settled :
      (s : Layout) (r : Reply Error Layout) → IsStalled n s → Stays r → IsStalled n (settle s r)
  settled s (ok s') st (accepted p) = p
  settled s (err e) st (refused q) = st

  history-IsStalled :
      (calls : List (Env × Method)) (s : Layout)
      → All (λ c. Spares n c.1) calls
      → IsStalled n s
      → IsStalled n (history calls s)
  unfolding history
  history-IsStalled [] s all st = st
  history-IsStalled ((env, method) ∷ rest) s all st =
      history-IsStalled rest _ all.1 (settled s _ st (execute-Stays env method s all.0 st))

  -- While the earliest incomplete checkpoint `n` has no certified burn, calls that certify none of it,
  -- as `updateCheckpointInfo` for a checkpoint without burns, leave the latest completed checkpoint at
  -- `n - 1`, whatever they do for later checkpoints.
  pub empty_checkpoint_stalls :
      (calls : List (Env × Method)) (s : Layout)
      → All (λ c. Spares n c.1) calls
      → IsStalled n s
      → get_latest_completed_checkpoint (history calls s) ≡ n - 1
  unfolding get_latest_completed_checkpoint
  empty_checkpoint_stalls calls s all st =
      let last = history-IsStalled calls s all st in ground (arith, last.earliest)
