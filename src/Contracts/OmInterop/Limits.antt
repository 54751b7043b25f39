-- ===== src/Contracts/OmInterop/Limits.antt =====
-- The rate limits of tokens bound what is received.
use money_interoperability.Prelude.{
  max, ◌/◌, ltb, if◌then◌else◌, sym, u64_max, ℕ, ◌+◌, ◌≤◌, ◌≡◌, ◌≢◌, refl, List, arith, ◌==◌,
}
use money_interoperability.World.{Address, ok}
use money_interoperability.Contracts.OmInterop.Admin.{Method, history}
use money_interoperability.Contracts.OmInterop.Bridge.{
  bridge_from, increase_inbound_nonce, latest_inbound_nonce,
}
use money_interoperability.Contracts.OmInterop.Histories.{history-IsValid, blank-IsValid}
use money_interoperability.Contracts.OmInterop.Invariant.{IsLimited}
use money_interoperability.Contracts.OmInterop.RateLimits.{check_and_update_rate_limit}
use money_interoperability.Contracts.OmInterop.State.{Layout, Env, blank}
use money_interoperability.Contracts.Outcome.{
  Ends, accepted, returned, revert_if-Ends, bind-Ends, any-Ends, if-Ends,
}

-- What a call does to the amount of its token in flight, if the token has a window: it adds to what the
-- token received in the same epoch, or starts again in a later one.
abbrev Charged : ℕ → Address → ℕ → Layout → Layout → Type 0
Charged time token amount s s' =
    let param = s.rate_limits_param token in
    let before = s.rate_limits_data token in
    let after = s'.rate_limits_data token in
    param.window ≢ 0
    → (after.amount_in_flight ≡ (
        if ltb before.last_epoch (time / param.window)
        then amount
        else before.amount_in_flight + amount))
      × (after.last_epoch ≡ max before.last_epoch (time / param.window))
      × (after.amount_in_flight ≤ param.limit)

charge-Charged :
    (time : ℕ) (token : Address) (amount : ℕ) (s : Layout)
    → Ends
        (Charged time token amount s)
        (λ _. Unit)
        (check_and_update_rate_limit time token amount s)
unfolding check_and_update_rate_limit
charge-Charged time token amount s =
    if-Ends ((s.rate_limits_param token).window == 0) _ _
      (λ off. accepted (λ on. absurd (on (ground arith))))
      (λ _.
        revert_if-Ends _ _ _ tt λ _. revert_if-Ends _ _ _ tt λ fits. accepted (λ on. ground arith))

-- The next nonce is all that changes.
abbrev Counted : Layout → Layout → Type 0
Counted s s' =
    (s'.rate_limits_param ≡ s.rate_limits_param)
    × (s'.rate_limits_data ≡ s.rate_limits_data)
    × (s'.tokens_by_sidechain ≡ s.tokens_by_sidechain)

increase-Counted : (s : Layout) → Ends (Counted s) (λ _. Unit {0}) (increase_inbound_nonce s)
unfolding increase_inbound_nonce
increase-Counted s = revert_if-Ends _ _ _ tt λ _. accepted (refl, refl, refl)

module _ (env : Env) (to : Address) (amount : ℕ) (s : Layout) where
  abbrev pub token_of : Address
  token_of = (s.tokens_by_sidechain env.sender).om_token

  Charged-from :
      (s₁ s₂ : Layout)
      → Counted s s₁
      → Charged env.timestamp (s₁.tokens_by_sidechain env.sender).om_token amount s₁ s₂
      → Charged env.timestamp token_of amount s s₂
  Charged-from s₁ s₂ (same_param, same_data, same_tokens) c =
      rw (sym same_param, sym same_data, sym same_tokens) c

  bridge_from-Charged :
      Ends (Charged env.timestamp token_of amount s) (λ _. Unit) (bridge_from env to amount s)
  unfolding bridge_from
  bridge_from-Charged = revert_if-Ends _ _ _ tt λ _. revert_if-Ends _ _ _ tt λ _.
      revert_if-Ends _ _ _ tt λ _. bind-Ends _ _ (increase-Counted s) λ s₁ same.
        bind-Ends _ _ (charge-Charged env.timestamp _ amount s₁) λ s₂ c.
          bind-Ends _ _ (any-Ends (latest_inbound_nonce s₂))
            λ n _. accepted (Charged-from s₁ s₂ same c)

  -- An accepted `bridgeFrom` of a token with a window leaves as what the token has in flight its
  -- amount, added to what was in flight before unless the call is in a later epoch than the last one,
  -- when it counts alone; this is at most the limit. The epoch is the time divided by the window, and
  -- the later one is kept.
  pub bridge_from-limited :
      (s' : Layout)
      → bridge_from env to amount s ≡ ok s'
      → (s.rate_limits_param token_of).window ≢ 0
      → let param = s.rate_limits_param token_of in
        let before = s.rate_limits_data token_of in
        let after = s'.rate_limits_data token_of in
        (after.amount_in_flight ≡ (
          if ltb before.last_epoch (env.timestamp / param.window)
          then amount
          else before.amount_in_flight + amount))
        × (after.last_epoch ≡ max before.last_epoch (env.timestamp / param.window))
        × (after.amount_in_flight ≤ param.limit)
  bridge_from-limited s' e = returned _ s' bridge_from-Charged e

-- After any calls on a new proxy, no token with a window has more in flight than its limit, and the
-- inbound and the burn nonces fit 64 bits.
pub history-bounded :
    (calls : List (Env × Method))
    → let now = history calls blank in
      IsLimited now
      × (now.next_inbound_nonce ≤ u64_max)
      × ((a : Address) → now.latest_bb_nonce a ≤ u64_max)
history-bounded calls =
    let v = history-IsValid calls blank-IsValid in (v.limited, v.inbound_bounded, v.burns_bounded)
