-- ===== src/Action/Nonces.antt =====
-- The discipline of the relayer's nonce: every transaction that the sidechain accepts carries the
-- nonce after the one before it, and the counter holds the next one.
pub mod Quiet
use money_interoperability.Prelude.{
  ℕ, ◌+◌, ◌<◌, ◌≡◌, ◌⊎◌, inl, List, [], ◌∷◌, Option, none, some, wrapping_add, u64_mod, Bool, true,
  false, zero, suc, leb, if◌then◌else◌,
}
use money_interoperability.World
use money_interoperability.World.{
  Call, Response, Exchange, History, World, Reply, pending, send, get_receipt, Tx, SendReply,
}
use money_interoperability.Action.Loops.{
  Flow, next, stop, for_each, fold_each, for_range, scan_blocks, and_then, window_end,
}
use money_interoperability.Action.Monad.{
  Exit, done, fail, panic, waiting, State, Action, pure, raise, or_raise, some_or, continue, ◌>>=◌,
  ask, unreachable, still_waiting, map_error,
}

-- The nonce of a transaction that the sidechain took into its pool.
abbrev pub accepted : (c : Call) → Response c → Option ℕ
accepted (send tx n) (pending h) = some n
accepted _ _ = none

abbrev Follows : Option ℕ → ℕ → (ℕ → Type 0) → Type 0
Follows none due before = before due
Follows (some n) due before = (n < u64_mod) × (due ≡ wrapping_add n 1) × before n

-- The accepted nonces count up by one from `base`, and `due` comes after the last of them.
abbrev pub IsConsecutive : ℕ → History → ℕ → Type 0
IsConsecutive base [] due = due ≡ base
IsConsecutive base (e ∷ h) due =
    let earlier = IsConsecutive base h in Follows (accepted e.call e.reply) due earlier

module _ (base : ℕ) where
  -- The counter is the next nonce.
  pub record IsAligned (s : State) : Type 0 where
    pub bounded : s.relayer_nonce < u64_mod
    pub consecutive : IsConsecutive base s.history s.relayer_nonce

  -- The counter is one past the next nonce: a nonce was drawn for a transaction that the sidechain
  -- did not accept.
  pub record IsAhead (s : State) : Type 0 where
    pub due : ℕ
    pub bounded : due < u64_mod
    pub skipped : s.relayer_nonce ≡ wrapping_add due 1
    pub consecutive : IsConsecutive base s.history due

  abbrev pub Settled : {E A : Type 0} → Exit E A → State → Type 0
  Settled (done a) s = IsAligned s
  Settled (fail e) s = IsAligned s ⊎ IsAhead s
  Settled panic s = IsAligned s
  Settled waiting s = IsAligned s

  -- From an aligned counter `m` returns with an aligned one, and if it fails the counter is at most
  -- one ahead.
  pub record Disciplined {E A : Type 0} (m : Action E A) : Type 0 where
    pub at : (s : State) → IsAligned s → Settled (m s).0 (m s).1

module _ {base : ℕ} {E A : Type 0} where
  pub pure-Disciplined : (a : A) → Disciplined base {E = E} (pure a)
  pure-Disciplined a = record { at = λ s h. h }

  pub raise-Disciplined : (e : E) → Disciplined base {A = A} (raise e)
  raise-Disciplined e = record { at = λ s h. inl h }

  pub unreachable-Disciplined : Disciplined base {E = E} {A = A} unreachable
  unreachable-Disciplined = record { at = λ s h. h }

  pub still_waiting-Disciplined : Disciplined base {E = E} {A = A} still_waiting
  still_waiting-Disciplined = record { at = λ s h. h }

  pub or_raise-Disciplined :
      {F : Type 0} (f : F → E) (r : Reply F A) → Disciplined base (or_raise f r)
  or_raise-Disciplined f (World.ok a) = pure-Disciplined a
  or_raise-Disciplined f (World.err e) = raise-Disciplined (f e)

  pub some_or-Disciplined : (e : E) (o : Option A) → Disciplined base (some_or e o)
  some_or-Disciplined e (some a) = pure-Disciplined a
  some_or-Disciplined e none = raise-Disciplined e

  pub if-Disciplined :
      (b : Bool) (m n : Action E A)
      → Disciplined base m
      → Disciplined base n
      → Disciplined base (if b then m else n)
  if-Disciplined true m n km kn = km
  if-Disciplined false m n km kn = kn

module _ {base : ℕ} {E A B : Type 0} where
  continue-Settled :
      (r : Exit E A) (f : A → Action E B) (s : State)
      → ((a : A) → Disciplined base (f a))
      → Settled base r s
      → Settled base (continue r f s).0 (continue r f s).1
  continue-Settled (done a) f s kf h = (kf a).at s h
  continue-Settled (fail e) f s kf h = h
  continue-Settled panic f s kf h = h
  continue-Settled waiting f s kf h = h

  pub bind-Disciplined :
      (m : Action E A) (f : A → Action E B)
      → Disciplined base m
      → ((a : A) → Disciplined base (f a))
      → Disciplined base (m >>= f)
  unfolding ◌>>=◌
  bind-Disciplined m f km kf = record {
    at = λ s h. continue-Settled (m s).0 f (m s).1 kf (km.at s h);
  }

-- A call that is not a transaction leaves the accepted nonces alone.
pub ask-Disciplined :
    {base : ℕ} {E : Type 0} (w : World) (c : Call)
    → ((r : Response c) → accepted c r ≡ none)
    → Disciplined base {E = E} (ask w c)
unfolding ask
ask-Disciplined w c quiet = record {
  at = λ s h. record { bounded = h.bounded; consecutive = rw (quiet _) h.consecutive };
}

pub ask_bind-Disciplined :
    {base : ℕ} {E B : Type 0} (w : World) (c : Call) (f : Response c → Action E B)
    → ((r : Response c) → accepted c r ≡ none)
    → ((r : Response c) → Disciplined base (f r))
    → Disciplined base (ask w c >>= f)
ask_bind-Disciplined w c f quiet kf = bind-Disciplined _ _ (ask-Disciplined w c quiet) kf

module _ {base : ℕ} {E A : Type 0} where
  pub for_each-Disciplined :
      (xs : List A) (body : A → Action E (Unit {0}))
      → ((a : A) → Disciplined base (body a))
      → Disciplined base (for_each xs body)
  unfolding for_each
  for_each-Disciplined [] body kb = pure-Disciplined tt
  for_each-Disciplined (x ∷ xs) body kb =
      bind-Disciplined _ _ (kb x) (λ _. for_each-Disciplined xs body kb)

module _ {base : ℕ} {E S A : Type 0} where
  pub fold_each-Disciplined :
      (xs : List A) (acc : S) (body : A → S → Action E S)
      → ((a : A) (t : S) → Disciplined base (body a t))
      → Disciplined base (fold_each xs acc body)
  unfolding fold_each
  fold_each-Disciplined [] acc body kb = pure-Disciplined acc
  fold_each-Disciplined (x ∷ xs) acc body kb =
      bind-Disciplined _ _ (kb x acc) (λ t. fold_each-Disciplined xs t body kb)

module _ {base : ℕ} {E S B : Type 0} where
  and_then-Disciplined :
      (o : Flow S B) (rest : S → Action E (Flow S B))
      → ((t : S) → Disciplined base (rest t))
      → Disciplined base (and_then o rest)
  unfolding and_then
  and_then-Disciplined (next t) rest kr = kr t
  and_then-Disciplined (stop b) rest kr = pure-Disciplined (stop b)

  pub for_range-Disciplined :
      (rounds i : ℕ) (acc : S) (body : ℕ → S → Action E (Flow S B))
      → ((j : ℕ) (t : S) → Disciplined base (body j t))
      → Disciplined base (for_range rounds i acc body)
  unfolding for_range
  for_range-Disciplined zero i acc body kb = pure-Disciplined (next acc)
  for_range-Disciplined (suc rounds) i acc body kb =
      bind-Disciplined _ _ (kb i acc) (λ found.
        and_then-Disciplined found _ (λ t. for_range-Disciplined rounds (i + 1) t body kb))

  pub scan_blocks-Disciplined :
      (fuel start to : ℕ) (acc : S) (body : ℕ → ℕ → S → Action E (Flow S B))
      → ((a b : ℕ) (t : S) → Disciplined base (body a b t))
      → Disciplined base (scan_blocks fuel start to acc body)
  unfolding scan_blocks
  scan_blocks-Disciplined zero start to acc body kb = still_waiting-Disciplined
  scan_blocks-Disciplined (suc fuel) start to acc body kb =
      if-Disciplined (leb start to) _ _
        (bind-Disciplined _ _ (kb start (window_end start to) acc) (λ found.
          and_then-Disciplined found _ (λ t.
            scan_blocks-Disciplined fuel (wrapping_add (window_end start to) 1) to t body kb)))
        (pure-Disciplined (next acc))

module _ {E F A : Type 0} (f : E → F) where
  -- `map_error` on an exit that has been reached.
  mapped-Settled :
      (base : ℕ) (r : Exit E A) (s : State)
      → Settled base r s
      → Settled base (map_error f (λ _. (r, s)) s).0 (map_error f (λ _. (r, s)) s).1
  unfolding map_error
  mapped-Settled base (done a) s h = h
  mapped-Settled base (fail e) s h = h
  mapped-Settled base panic s h = h
  mapped-Settled base waiting s h = h

  pub map_error-Disciplined :
      {base : ℕ} (m : Action E A) → Disciplined base m → Disciplined base (map_error f m)
  unfolding map_error
  map_error-Disciplined {base} m km = record {
    at = λ s h. mapped-Settled base (m s).0 (m s).1 (km.at s h);
  }

pub ruleset discipline = (
  ask-Disciplined, ask_bind-Disciplined, pure-Disciplined, raise-Disciplined,
  unreachable-Disciplined, still_waiting-Disciplined, or_raise-Disciplined, some_or-Disciplined,
  if-Disciplined, bind-Disciplined, for_each-Disciplined, fold_each-Disciplined,
  for_range-Disciplined, scan_blocks-Disciplined, map_error-Disciplined,
)
