-- ===== src/Contracts/OmInterop/Untouched.antt =====
-- What leaves the tallies of the checkpoints as they are.
use money_interoperability.Prelude.{ℕ, ◌≡◌, refl, ◌==◌, Bool-cases, inl, inr, ◌∙◌}
use money_interoperability.World.{Address, Reply}
use money_interoperability.Contracts.OmInterop.Bridge.{
  increase_inbound_nonce, latest_inbound_nonce, enforce_sequential_nonce, bridge_from,
}
use money_interoperability.Contracts.OmInterop.RateLimits.{
  check_and_update_rate_limit, stored_limit,
}
use money_interoperability.Contracts.OmInterop.State.{Layout, Env, Error}
use money_interoperability.Contracts.Outcome.{
  Ends, accepted, revert_if-Ends, bind-Ends, any-Ends, if-Ends,
}

-- The earliest incomplete checkpoint, the tallies, and the recorded checkpoints stay.
abbrev pub Untouched : Layout → Layout → Type 0
Untouched s s' =
    (s'.earliest_incompleted_checkpoint ≡ s.earliest_incompleted_checkpoint)
    × (s'.checkpoint_tallies ≡ s.checkpoint_tallies)
    × (s'.checkpoint_ids_by_source_hash ≡ s.checkpoint_ids_by_source_hash)

abbrev pub Spared : Layout → Reply Error Layout → Type 0
Spared s = Ends (Untouched s) (λ _. Unit)

pub increase-Spared : (s : Layout) → Spared s (increase_inbound_nonce s)
unfolding increase_inbound_nonce
increase-Spared s = revert_if-Ends _ _ _ tt λ _. accepted (refl, refl, refl)

pub enforce-Spared :
    (account : Address) (bbnonce : ℕ) (s : Layout)
    → Spared s (enforce_sequential_nonce account bbnonce s)
unfolding enforce_sequential_nonce
enforce-Spared account bbnonce s =
    revert_if-Ends _ _ _ tt λ _. revert_if-Ends _ _ _ tt λ _. accepted (refl, refl, refl)

pub charge-Spared :
    (time : ℕ) (token : Address) (amount : ℕ) (s : Layout)
    → Spared s (check_and_update_rate_limit time token amount s)
unfolding check_and_update_rate_limit
charge-Spared time token amount s =
    if-Ends ((s.rate_limits_param token).window == 0) _ _ (λ _. accepted (refl, refl, refl))
      (λ _. revert_if-Ends _ _ _ tt λ _. revert_if-Ends _ _ _ tt λ _. accepted (refl, refl, refl))

pub stored_limit-Untouched :
    (time : ℕ) (token : Address) (limit window : ℕ) (s : Layout)
    → Untouched s (stored_limit time token limit window s)
stored_limit-Untouched time token limit window s = elim (Bool-cases (window == 0)) [
  | inl cleared ↦ rw cleared (refl, refl, refl)
  | inr set ↦ rw set (refl, refl, refl)
]

pub bridge_from-Spared :
    (env : Env) (to : Address) (amount : ℕ) (s : Layout) → Spared s (bridge_from env to amount s)
unfolding bridge_from
bridge_from-Spared env to amount s = revert_if-Ends _ _ _ tt λ _. revert_if-Ends _ _ _ tt λ _.
    revert_if-Ends _ _ _ tt λ _. bind-Ends _ _ (increase-Spared s) λ s₁ up.
      bind-Ends _ _ (charge-Spared env.timestamp _ amount s₁) λ s₂ (e, t, i).
        bind-Ends _ _ (any-Ends (latest_inbound_nonce s₂))
          λ _ _. accepted (e ∙ up.0, t ∙ up.1, i ∙ up.2)
