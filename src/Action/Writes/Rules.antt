-- ===== src/Action/Writes/Rules.antt =====
-- What an action writes, one rule for each way to build an action.
use mathlib.Core.List.{append_assoc}
use money_interoperability.Prelude.{
  ◌≡◌, refl, sym, ap, ◌∙◌, Bool, true, false, Option, none, some, List, [], ◌++◌, if◌then◌else◌,
}
use money_interoperability.World.{World, Call, Response, Reply, ok, err}
use money_interoperability.Action.Monad.{
  Exit, done, fail, panic, waiting, State, Action, pure, raise, still_waiting, unreachable,
  or_raise, some_or, continue, ◌>>=◌, ask,
}
use money_interoperability.Action.Writes.{Write, write_of, writes}

-- `m` writes nothing.
pub record Silent {E A : Type 0} (m : Action E A) : Type 0 where
  pub at : (s : State) → writes (m s).1.history ≡ writes s.history

-- What `m` writes satisfies `P`.
pub record Within {E A : Type 0} (P : List Write → Type 0) (m : Action E A) : Type 0 where
  pub at :
      (s : State) → (ws : List Write) × P ws × (writes (m s).1.history ≡ ws ++ writes s.history)

module _ {E A : Type 0} where
  pub pure-Silent : (a : A) → Silent {E = E} (pure a)
  pure-Silent a = record { at = λ s. refl }

  pub raise-Silent : (e : E) → Silent {A = A} (raise e)
  raise-Silent e = record { at = λ s. refl }

  pub still_waiting-Silent : Silent {E = E} {A = A} still_waiting
  still_waiting-Silent = record { at = λ s. refl }

  pub unreachable-Silent : Silent {E = E} {A = A} unreachable
  unreachable-Silent = record { at = λ s. refl }

  pub or_raise-Silent : {F : Type 0} (f : F → E) (r : Reply F A) → Silent (or_raise f r)
  or_raise-Silent f (ok a) = pure-Silent a
  or_raise-Silent f (err e) = raise-Silent (f e)

  pub some_or-Silent : (e : E) (o : Option A) → Silent (some_or e o)
  some_or-Silent e (some a) = pure-Silent a
  some_or-Silent e none = raise-Silent e

  pub if-Silent : (b : Bool) (m n : Action E A) → Silent m → Silent n → Silent (if b then m else n)
  if-Silent true m n km kn = km
  if-Silent false m n km kn = kn

  pub Within-Silent : {P : List Write → Type 0} (m : Action E A) → Silent m → P [] → Within P m
  Within-Silent m km p = record { at = λ s. ([], p, km.at s) }

  pub if-Within :
      {P : List Write → Type 0} (b : Bool) (m n : Action E A)
      → Within P m
      → Within P n
      → Within P (if b then m else n)
  if-Within true m n km kn = km
  if-Within false m n km kn = kn

  -- The branches of a test may use its value.
  pub if_cases-Within :
      {P : List Write → Type 0} (b : Bool) (m n : Action E A)
      → (b ≡ true → Within P m)
      → (b ≡ false → Within P n)
      → Within P (if b then m else n)
  if_cases-Within true m n km kn = km refl
  if_cases-Within false m n km kn = kn refl

module _ {E A B : Type 0} where
  continue-Silent :
      (r : Exit E A) (f : A → Action E B) (s : State)
      → ((a : A) → Silent (f a))
      → writes (continue r f s).1.history ≡ writes s.history
  continue-Silent (done a) f s kf = (kf a).at s
  continue-Silent (fail e) f s kf = refl
  continue-Silent panic f s kf = refl
  continue-Silent waiting f s kf = refl

  pub bind-Silent :
      (m : Action E A) (f : A → Action E B) → Silent m → ((a : A) → Silent (f a)) → Silent (m >>= f)
  unfolding ◌>>=◌
  bind-Silent m f km kf = record { at = λ s. continue-Silent (m s).0 f (m s).1 kf ∙ km.at s }

  module _ {P : List Write → Type 0} where
    continue-Within :
        (r : Exit E A) (f : A → Action E B) (s : State)
        → P []
        → ((a : A) → Within P (f a))
        → (ws : List Write) × P ws × (writes (continue r f s).1.history ≡ ws ++ writes s.history)
    continue-Within (done a) f s p kf = (kf a).at s
    continue-Within (fail e) f s p kf = ([], p, refl)
    continue-Within panic f s p kf = ([], p, refl)
    continue-Within waiting f s p kf = ([], p, refl)

    -- After a silent action, what the rest writes.
    pub Silent-bind-Within :
        (m : Action E A) (f : A → Action E B)
        → Silent m
        → P []
        → ((a : A) → Within P (f a))
        → Within P (m >>= f)
    unfolding ◌>>=◌
    Silent-bind-Within m f km p kf = record {
      at = λ s.
          let (ws, q, e) = continue-Within (m s).0 f (m s).1 p kf in
          (ws, q, e ∙ ap (λ l. ws ++ l) (km.at s));
    }

    -- Before a silent rest, what the action writes.
    pub bind_Silent-Within :
        (m : Action E A) (f : A → Action E B)
        → Within P m
        → ((a : A) → Silent (f a))
        → Within P (m >>= f)
    unfolding ◌>>=◌
    bind_Silent-Within m f km kf = record {
      at = λ s. let (ws, q, e) = km.at s in (ws, q, continue-Silent (m s).0 f (m s).1 kf ∙ e);
    }

-- Two actions that both write: the later writes stand before the earlier ones.
module _ {E A B : Type 0} {P Q : List Write → Type 0} {R : List Write → Type 0}
    (stopped : (ws : List Write) → Q ws → P ws)
    (joined : (ws vs : List Write) → Q ws → R vs → P (vs ++ ws)) where
  continue-Within₂ :
      (r : Exit E A) (f : A → Action E B) (s : State) (ws before : List Write)
      → Q ws
      → writes s.history ≡ ws ++ before
      → ((a : A) → Within R (f a))
      → (us : List Write) × P us × (writes (continue r f s).1.history ≡ us ++ before)
  continue-Within₂ (done a) f s ws before q e kf =
      let (vs, r, e') = (kf a).at s in
      (vs ++ ws, joined ws vs q r, e' ∙ ap (λ l. vs ++ l) e ∙ sym (append_assoc vs ws before))
  continue-Within₂ (fail x) f s ws before q e kf = (ws, stopped ws q, e)
  continue-Within₂ panic f s ws before q e kf = (ws, stopped ws q, e)
  continue-Within₂ waiting f s ws before q e kf = (ws, stopped ws q, e)

  pub bind-Within :
      (m : Action E A) (f : A → Action E B)
      → Within Q m
      → ((a : A) → Within R (f a))
      → Within P (m >>= f)
  unfolding ◌>>=◌
  bind-Within m f km kf = record {
    at = λ s.
        let (ws, q, e) = km.at s in continue-Within₂ (m s).0 f (m s).1 ws (writes s.history) q e kf;
  }

-- A call that is no transaction is silent.
pub ask_bind-Silent :
    {E B : Type 0} (w : World) (c : Call) (f : Response c → Action E B)
    → ((r : Response c) → write_of c r ≡ none)
    → ((r : Response c) → Silent (f r))
    → Silent (ask w c >>= f)
unfolding ask
ask_bind-Silent w c f quiet kf =
    bind-Silent _ _ (record { at = λ s. rw (quiet (w.respond s.history c)) }) kf

pub ask_bind-Within :
    {E B : Type 0} {P : List Write → Type 0} (w : World) (c : Call) (f : Response c → Action E B)
    → ((r : Response c) → write_of c r ≡ none)
    → P []
    → ((r : Response c) → Within P (f r))
    → Within P (ask w c >>= f)
unfolding ask
ask_bind-Within w c f quiet p kf =
    Silent-bind-Within _ _ (record { at = λ s. rw (quiet (w.respond s.history c)) }) p kf

-- The rest of a block may use the value that an option had.
pub some_or_bind-Within :
    {E A B : Type 0} {P : List Write → Type 0} (e : E) (o : Option A) (f : A → Action E B)
    → P []
    → ((a : A) → o ≡ some a → Within P (f a))
    → Within P (some_or e o >>= f)
unfolding ◌>>=◌
some_or_bind-Within e none f p kf = record { at = λ s. ([], p, refl) }
some_or_bind-Within e (some a) f p kf = record { at = (kf a refl).at }

pub ruleset silent_rules = (
  pure-Silent, raise-Silent, still_waiting-Silent, unreachable-Silent, or_raise-Silent,
  some_or-Silent, if-Silent, ask_bind-Silent, bind-Silent,
)
