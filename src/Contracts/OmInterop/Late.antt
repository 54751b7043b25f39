-- ===== src/Contracts/OmInterop/Late.antt =====
-- A burn that is bridged without its checkpoint after that checkpoint was reported.
use money_interoperability.Prelude.{ℕ, ◌≡◌, ◌≢◌, refl, false, [], ◌∷◌, arith, ◌==◌, ◌∙◌}
use money_interoperability.World.{Hash, ok, BridgeTo}
use money_interoperability.Contracts.Mapping.{◌>>=◌}
use money_interoperability.Contracts.OmInterop.Bridge.{
  latest_inbound_nonce, bridge_to, bridge_validated, quote_bridge_to_validated, dispatch_by,
}
use money_interoperability.Contracts.OmInterop.Checkpoints.{
  try_prune_checkpoint, certify, certify_all, record_processed_bridge, update_checkpoint_info,
}
use money_interoperability.Contracts.OmInterop.State.{Layout, Env}
use money_interoperability.Contracts.OmInterop.Untouched.{Spared, increase-Spared, enforce-Spared}
use money_interoperability.Contracts.Outcome.{
  accepted, returned, revert_if-Ends, bind-Ends, any-Ends, map-Ends,
}

module _ (env : Env) (req : BridgeTo) (uncertified : req.checkpoint_id ≡ 0) where
  record_processed_bridge-Spared :
      (s : Layout) → Spared s (record_processed_bridge env.gas req.source_hash req.checkpoint_id s)
  unfolding record_processed_bridge
  record_processed_bridge-Spared s = rw uncertified (accepted (refl, refl, refl))

  bridge_validated-Spared : (s : Layout) → Spared s (bridge_validated env req s)
  unfolding bridge_validated
  bridge_validated-Spared s = bind-Ends _ _ (increase-Spared s) λ s₁ up.
      bind-Ends _ _ (any-Ends (dispatch_by _ env _ req s₁)) λ refund _.
        bind-Ends _ _ (record_processed_bridge-Spared s₁) λ s₂ (e, t, i).
          bind-Ends _ _ (any-Ends (latest_inbound_nonce s₂))
            λ _ _. accepted (e ∙ up.0, t ∙ up.1, i ∙ up.2)

  bridge_to-Spared : (s : Layout) → Spared s (bridge_to env req s)
  unfolding bridge_to
  bridge_to-Spared s = revert_if-Ends _ _ _ tt λ _. revert_if-Ends _ _ _ tt λ _.
      bind-Ends _ _ (any-Ends (quote_bridge_to_validated req s)) λ _ _.
        bind-Ends _ _ (enforce-Spared req.from req.bbnonce s) λ s₁ up.
          map-Ends _ (λ s' (e, t, i). (e ∙ up.0, t ∙ up.1, i ∙ up.2)) (λ _ _. tt)
            (bridge_validated-Spared s₁)

-- A report of a checkpoint with a hash that is recorded already.
reported_again :
    (env : Env) (id : ℕ) (h : Hash) (s : Layout)
    → s.checkpoint_ids_by_source_hash h ≢ 0
    → Spared s (update_checkpoint_info env id (h ∷ []) s)
unfolding update_checkpoint_info certify_all certify try_prune_checkpoint
reported_again env id h s recorded =
    let known : (s.checkpoint_ids_by_source_hash h == 0) ≡ false = ground arith in
    revert_if-Ends _ _ _ tt λ _. revert_if-Ends _ _ _ tt λ _.
      revert_if-Ends _ _ _ tt
        λ incomplete. rw (known, ◌>>=◌, incomplete) (accepted (refl, refl, refl))

-- If the checkpoint of a burn is recorded before its transfer, then a transfer that is sent for
-- checkpoint 0, as the relay of certified transactions does, is not counted: neither it nor a further
-- report of the burn changes a tally or the earliest incomplete checkpoint.
pub late_bridge_uncounted :
    (env env' : Env) (req : BridgeTo) (id : ℕ) (s s₁ s₂ : Layout)
    → s.checkpoint_ids_by_source_hash req.source_hash ≢ 0
    → req.checkpoint_id ≡ 0
    → bridge_to env req s ≡ ok s₁
    → update_checkpoint_info env' id (req.source_hash ∷ []) s₁ ≡ ok s₂
    → (s₂.checkpoint_tallies ≡ s.checkpoint_tallies)
      × (s₂.earliest_incompleted_checkpoint ≡ s.earliest_incompleted_checkpoint)
late_bridge_uncounted env env' req id s s₁ s₂ recorded zero_id bridged reported =
    let (e, t, i) = returned _ s₁ (bridge_to-Spared env req zero_id s) bridged in
    let still : s₁.checkpoint_ids_by_source_hash req.source_hash ≢ 0 = rw i recorded in
    let (e', t', _) = returned _ s₂ (reported_again env' id req.source_hash s₁ still) reported in
    (t' ∙ t, e' ∙ e)
