-- ===== src/Action/Writes/Results.antt =====
-- Actions that write nothing and whose result, when there is one, has a property.
use money_interoperability.Prelude.{ap, ◌∙◌, ◌≡◌, refl, Option, none, some, List, [], ◌++◌}
use money_interoperability.Action.{
  continue, Exit, done, fail, panic, waiting, State, Action, pure, some_or, ◌>>=◌,
}
use money_interoperability.Action.Writes.{Write, writes}
use money_interoperability.Action.Writes.Rules.{Within}

module _ {E A : Type 0} where
  -- The result, if the exit has one, satisfies `Q`.
  pub data Returns (Q : A → Type 0) : Exit E A → Type 0 where
    returned : (a : A) → Q a → Returns Q (done a)
    ended_by_error : (e : E) → Returns Q (fail e)
    ended_by_panic : Returns Q panic
    not_ended : Returns Q waiting

  -- `m` writes nothing and returns a value that satisfies `Q`, if it returns.
  pub record Yields (Q : A → Type 0) (m : Action E A) : Type 0 where
    pub returns : (s : State) → Returns Q (m s).0
    pub silent : (s : State) → writes (m s).1.history ≡ writes s.history

  pub pure-Yields : {Q : A → Type 0} (a : A) → Q a → Yields Q (pure a)
  pure-Yields a q = record { returns = λ s. returned a q; silent = λ s. refl }

module _ {E A B : Type 0} where
  pub some_or_bind-Yields :
      {Q : B → Type 0} (e : E) (o : Option A) (f : A → Action E B)
      → ((a : A) → o ≡ some a → Yields Q (f a))
      → Yields Q (some_or e o >>= f)
  unfolding ◌>>=◌
  some_or_bind-Yields e none f kf = record { returns = λ s. ended_by_error e; silent = λ s. refl }
  some_or_bind-Yields e (some a) f kf = record {
    returns = (kf a refl).returns;
    silent = (kf a refl).silent;
  }

  pub Yields-bind-Within :
      {Q : A → Type 0} {P : List Write → Type 0} (m : Action E A) (f : A → Action E B)
      → Yields Q m
      → P []
      → ((a : A) → Q a → Within P (f a))
      → Within P (m >>= f)
  unfolding ◌>>=◌
  Yields-bind-Within {Q = Q} {P = P} m f km p kf = record {
    at = λ s. after s (m s) (km.returns s) (km.silent s);
  }
    where
      after :
          (s : State) (r : Exit E A × State)
          → Returns Q r.0
          → writes r.1.history ≡ writes s.history
          → (ws : List Write) × P ws
            × (writes (continue r.0 f r.1).1.history ≡ ws ++ writes s.history)
      after s (_, t) (returned a q) e =
          let (ws, x, e') = (kf a q).at t in (ws, x, e' ∙ ap (λ l. ws ++ l) e)
      after s (_, t) (ended_by_error _) e = ([], p, e)
      after s (_, t) ended_by_panic e = ([], p, e)
      after s (_, t) not_ended e = ([], p, e)
