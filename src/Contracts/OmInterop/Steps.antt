-- ===== src/Contracts/OmInterop/Steps.antt =====
-- What bridgeFrom and bridgeTo emit, and their effect on the parts that the invariant reads.
use mathlib.Core.List.{append-nil}
use money_interoperability.Prelude.{
  ℕ, suc, ◌+◌, ◌-◌, ◌<◌, ◌≤◌, ◌≡◌, ◌≢◌, refl, sym, ap, ◌∙◌, List, [], ◌∷◌, ◌++◌, arith, ◌==◌,
  u64_max,
}
use money_interoperability.World.{Address, Reply, ok, err, OmInteropEvents, BridgeTo}
use money_interoperability.Contracts.Mapping.{put}
use money_interoperability.Contracts.OmInterop.Bridge.{
  increase_inbound_nonce, latest_inbound_nonce, enforce_sequential_nonce, bridge_from, bridge_to,
  bridge_validated, quote_bridge_to_validated, dispatch_by,
}
use money_interoperability.Contracts.OmInterop.Invariant.{
  IsLimited, Step, Change, Same, Kept, Change-Same, Same-refl, record_processed_bridge-Kept,
}
use money_interoperability.Contracts.OmInterop.Numbering.{nonces, nonce_of, upto, burns}
use money_interoperability.Contracts.OmInterop.RateLimits.{check_and_update_rate_limit}
use money_interoperability.Contracts.OmInterop.State.{Layout, Env, Error}
use money_interoperability.Contracts.Outcome.{
  Ends, accepted, refused, revert_if-Ends, if-Ends, bind-Ends, any-Ends,
}

abbrev pub Moves : Layout → Reply Error Layout → Type 0
Moves s = Ends (λ s'. (es : List OmInteropEvents) × Step es s s') (λ _. Unit)

-- A change of nothing that the invariant reads.
pub Same-Step : {s s' : Layout} → Same s s' → Step [] s s'
Same-Step {s} c = record {
  emitted = c.emitted ∙ sym (append-nil s.events);
  inbound = rw (c.inbound, append-nil (upto s.next_inbound_nonce)) refl;
  accounts = λ a. omega (arith, c.accounts a);
  limits = c.limits;
  inbound_bound = λ h. omega (arith, c.inbound);
  burns_bound = λ a h. omega (arith, c.accounts a);
  oracle = c.oracle;
}

-- The emission of one numbered event.
numbered-Step :
    {s s' : Layout} {latest : Address → ℕ} (e : OmInteropEvents)
    → Change (s.next_inbound_nonce + 1) latest s s'
    → nonce_of e ≡ s.next_inbound_nonce ∷ []
    → s.next_inbound_nonce ≢ u64_max
    → ((a : Address) → latest a ≡ s.latest_bb_nonce a + burns a (e ∷ []))
    → ((a : Address) → s.latest_bb_nonce a ≤ u64_max → latest a ≤ u64_max)
    → Step (e ∷ []) s (record s' { events = s'.events ++ e ∷ [] })
numbered-Step {s} e c at below counts bound = record {
  emitted = rw c.emitted refl;
  inbound = rw c.inbound (
      let next : s.next_inbound_nonce + 1 ≡ suc s.next_inbound_nonce = omega arith in
      rw (next, at) refl);
  accounts = λ a. c.accounts a ∙ counts a;
  limits = c.limits;
  inbound_bound = λ h. omega (arith, c.inbound);
  burns_bound = λ a h. ground (arith, c.accounts a, bound a h);
  oracle = c.oracle;
}

-- A method that emits events without a nonce and keeps the limits.
pub plain-Step :
    (s s' : Layout) (es : List OmInteropEvents)
    → s'.events ≡ s.events ++ es
    → nonces es ≡ []
    → ((a : Address) → burns a es ≡ 0)
    → s'.next_inbound_nonce ≡ s.next_inbound_nonce
    → ((a : Address) → s'.latest_bb_nonce a ≡ s.latest_bb_nonce a)
    → (IsLimited s → IsLimited s')
    → s'.public_price_oracle ≡ s.public_price_oracle
    → Step es s s'
plain-Step s s' es emits none_numbered no_burns inbound accounts limits oracle = record {
  emitted = emits;
  inbound = rw (inbound, none_numbered, append-nil (upto s.next_inbound_nonce)) refl;
  accounts = λ a. omega (arith, accounts a, no_burns a);
  limits = limits;
  inbound_bound = λ h. omega (arith, inbound);
  burns_bound = λ a h. omega (arith, accounts a);
  oracle = oracle;
}

pub Kept-Moves : {s : Layout} (r : Reply Error Layout) → Kept s r → Moves s r
Kept-Moves (ok s') (accepted c) = accepted ([], Same-Step c)
Kept-Moves (err e) (refused q) = refused tt

pub increase_lem :
    (s : Layout)
    → Ends {E = Error}
        (λ s'.
          Change (s.next_inbound_nonce + 1) s.latest_bb_nonce s s'
          × (s.next_inbound_nonce ≢ u64_max))
        (λ _. Unit {0})
        (increase_inbound_nonce s)
unfolding increase_inbound_nonce
increase_lem s = revert_if-Ends _ _ _ tt λ below. accepted (
  record { inbound = refl; accounts = λ a. refl; limits = λ l. l; emitted = refl; oracle = refl },
  ground arith,
)

pub latest_lem :
    (s : Layout)
    → Ends {E = Error} (λ n. n ≡ s.next_inbound_nonce - 1) (λ _. Unit {0}) (latest_inbound_nonce s)
unfolding latest_inbound_nonce
latest_lem s = revert_if-Ends _ _ _ tt λ _. accepted refl

pub charge-Kept :
    (time : ℕ) (token : Address) (amount : ℕ) (s : Layout)
    → Kept s (check_and_update_rate_limit time token amount s)
unfolding check_and_update_rate_limit
charge-Kept time token amount s =
    if-Ends ((s.rate_limits_param token).window == 0) _ _ (λ _. accepted (Same-refl s))
      (λ _. revert_if-Ends _ _ _ tt λ _. revert_if-Ends _ _ _ tt λ fits. accepted (record {
        inbound = refl;
        accounts = λ a. refl;
        limits = λ l t w. ground (arith, l t w);
        emitted = refl;
        oracle = refl;
      }))

pub bridge_from-Moves :
    (env : Env) (to : Address) (amount : ℕ) (s : Layout) → Moves s (bridge_from env to amount s)
unfolding bridge_from
bridge_from-Moves env to amount s = revert_if-Ends _ _ _ tt λ _. revert_if-Ends _ _ _ tt λ _.
    revert_if-Ends _ _ _ tt λ _. bind-Ends _ _ (increase_lem s) λ s₁ (c, below).
      bind-Ends _ _ (charge-Kept env.timestamp _ amount s₁) λ s₂ same.
        bind-Ends _ _ (latest_lem s₂) λ n at. accepted (
          _,
          numbered-Step _ (Change-Same c same)
              (ap (λ (k : ℕ). k ∷ []) (omega (arith, at, same.inbound, c.inbound))) below
              (λ a. omega arith) (λ a h. h),
        )

Change-next :
    {s s₁ s₂ : Layout} {latest : Address → ℕ}
    → Change s.next_inbound_nonce latest s s₁
    → Change (s₁.next_inbound_nonce + 1) s₁.latest_bb_nonce s₁ s₂
    → Change (s.next_inbound_nonce + 1) latest s s₂
Change-next x y = record {
  inbound = omega (arith, y.inbound, x.inbound);
  accounts = λ a. y.accounts a ∙ x.accounts a;
  limits = λ l. y.limits (x.limits l);
  emitted = y.emitted ∙ x.emitted;
  oracle = y.oracle ∙ x.oracle;
}

pub enforce_lem :
    (account : Address) (bbnonce : ℕ) (s : Layout)
    → Ends {E = Error}
        (λ s'.
          Change s.next_inbound_nonce (put s.latest_bb_nonce account (bbnonce + 1)) s s'
          × (bbnonce ≡ s.latest_bb_nonce account)
          × (bbnonce < u64_max))
        (λ _. Unit {0})
        (enforce_sequential_nonce account bbnonce s)
unfolding enforce_sequential_nonce
enforce_lem account bbnonce s = revert_if-Ends _ _ _ tt λ expected. revert_if-Ends _ _ _ tt λ small.
    accepted (
      record {
        inbound = refl;
        accounts = λ a. refl;
        limits = λ l. l;
        emitted = refl;
        oracle = refl;
      },
      ground arith,
      ground arith,
    )

module _ (env : Env) (req : BridgeTo) where
  bridge_validated-Moves :
      (s s₁ : Layout)
      → Change s.next_inbound_nonce (put s.latest_bb_nonce req.from (req.bbnonce + 1)) s s₁
      → req.bbnonce ≡ s.latest_bb_nonce req.from
      → req.bbnonce < u64_max
      → Moves s (bridge_validated env req s₁)
  unfolding bridge_validated
  bridge_validated-Moves s s₁ c expected small = bind-Ends _ _ (increase_lem s₁) λ s₂ (up, below).
      bind-Ends _ _ (any-Ends (dispatch_by _ env _ req s₂)) λ refund _.
        bind-Ends _ _ (record_processed_bridge-Kept env.gas req.source_hash req.checkpoint_id s₂)
          λ s₃ same. bind-Ends _ _ (latest_lem s₃) λ n at. accepted (
            _,
            numbered-Step _ (Change-Same (Change-next c up) same)
                (ap (λ (k : ℕ). k ∷ []) (omega (arith, at, same.inbound, up.inbound, c.inbound)))
                (λ e. below (omega (arith, e, c.inbound))) (λ a. ground arith)
                (λ a h. ground arith),
          )

  pub bridge_to-Moves : (s : Layout) → Moves s (bridge_to env req s)
  unfolding bridge_to
  bridge_to-Moves s = revert_if-Ends _ _ _ tt λ _. revert_if-Ends _ _ _ tt λ _.
      bind-Ends _ _ (any-Ends (quote_bridge_to_validated req s)) λ _ _.
        bind-Ends _ _ (enforce_lem req.from req.bbnonce s)
          λ s₁ (c, expected, small). bridge_validated-Moves s s₁ c expected small
