-- ===== src/Contracts/OmInterop/Replay.antt =====
-- No burn is bridged twice and no inbound nonce is emitted twice.
use money_interoperability.Prelude.{◌∙◌, ◌+◌, ◌≤◌, ◌≡◌, List, arith, u64_max}
use money_interoperability.World.{ok, BridgeTo}
use money_interoperability.Contracts.OmInterop.Admin.{Method, history}
use money_interoperability.Contracts.OmInterop.Bridge.{
  latest_inbound_nonce, dispatch_by, bridge_to, bridge_validated, quote_bridge_to_validated,
}
use money_interoperability.Contracts.OmInterop.Histories.{history-IsValid, blank-IsValid}
use money_interoperability.Contracts.OmInterop.Invariant.{
  record_processed_bridge-Kept, IsValid, Step-IsValid,
}
use money_interoperability.Contracts.OmInterop.Numbering.{nonces, upto, burns}
use money_interoperability.Contracts.OmInterop.State.{Layout, Env, blank}
use money_interoperability.Contracts.OmInterop.Steps.{increase_lem, bridge_to-Moves, enforce_lem}
use money_interoperability.Contracts.Outcome.{
  map-Ends, Ends, accepted, returned, revert_if-Ends, bind-Ends, any-Ends,
}

module _ (calls : List (Env × Method)) where
  abbrev now : Layout
  now = history calls blank

  now-IsValid : IsValid now
  now-IsValid = history-IsValid calls blank-IsValid

  -- After any calls on a new proxy, reverted ones included, the events of deposits and withdrawals
  -- carry the inbound nonces 0, 1, 2, .. in the order of their emission, up to the one before the
  -- latest inbound nonce, which fits 64 bits.
  pub history-numbered :
      (nonces now.events ≡ upto now.next_inbound_nonce) × (now.next_inbound_nonce ≤ u64_max)
  history-numbered = (now-IsValid.numbered, now-IsValid.inbound_bounded)

module _ (env : Env) (req : BridgeTo) where
  bridge_validated-kept :
      (s : Layout)
      → Ends
          (λ s'. s'.latest_bb_nonce req.from ≡ s.latest_bb_nonce req.from)
          (λ _. Unit)
          (bridge_validated env req s)
  unfolding bridge_validated
  bridge_validated-kept s = bind-Ends _ _ (increase_lem s) λ s₁ (c, _).
      bind-Ends _ _ (any-Ends (dispatch_by _ env _ req s₁)) λ refund _.
        bind-Ends _ _ (record_processed_bridge-Kept env.gas req.source_hash req.checkpoint_id s₁)
          λ s₂ same.
            bind-Ends _ _ (any-Ends (latest_inbound_nonce s₂))
              λ n _. accepted (same.accounts req.from ∙ c.accounts req.from)

  -- The nonce of an accepted call is the expected one, and the next one is expected then.
  abbrev Accepts : Layout → Layout → Type 0
  Accepts s s' =
      (req.bbnonce ≡ s.latest_bb_nonce req.from) × (s'.latest_bb_nonce req.from ≡ req.bbnonce + 1)

  bridge_to-Accepts : (s : Layout) → Ends (Accepts s) (λ _. Unit) (bridge_to env req s)
  unfolding bridge_to
  bridge_to-Accepts s = revert_if-Ends _ _ _ tt λ _. revert_if-Ends _ _ _ tt λ _.
      bind-Ends _ _ (any-Ends (quote_bridge_to_validated req s)) λ _ _.
        bind-Ends _ _ (enforce_lem req.from req.bbnonce s) λ s₁ (c, expected, _).
          map-Ends _ (λ s' kept. (expected, kept ∙ c.accounts req.from ∙ ground arith)) (λ _ _. tt)
            (bridge_validated-kept s₁)

  -- After any calls on a new proxy, an accepted `bridgeTo` has the number of the account's transfers
  -- so far as its nonce, and emits one more transfer of the account: no nonce of an account is accepted
  -- twice.
  pub bridge_to-next_burn :
      (calls : List (Env × Method)) (s' : Layout)
      → bridge_to env req (history calls blank) ≡ ok s'
      → (req.bbnonce ≡ burns req.from (history calls blank).events)
        × (burns req.from s'.events ≡ req.bbnonce + 1)
  bridge_to-next_burn calls s' e =
      let v = now-IsValid calls in
      let (es, p) = returned _ s' (bridge_to-Moves env req (now calls)) e in
      let (expected, advanced) = returned _ s' (bridge_to-Accepts (now calls)) e in
      (
        omega (arith, expected, v.counted req.from),
        omega (arith, advanced, (Step-IsValid p v).counted req.from),
      )
