-- ===== src/Action/Writes/Endings.antt =====
-- What an action writes, together with whether it returns.
use mathlib.Core.List.{append_assoc}
use money_interoperability.Prelude.{
  ◌≡◌, refl, sym, ap, ◌∙◌, Bool, true, false, Option, none, some, List, [], ◌++◌,
}
use money_interoperability.World.{World, Call, Response}
use money_interoperability.Action.Monad.{
  Exit, done, fail, panic, waiting, State, Action, pure, raise, some_or, continue, ◌>>=◌, ask,
}
use money_interoperability.Action.Writes.{Write, write_of, writes}
use money_interoperability.Action.Writes.Rules.{Silent, Within}

abbrev pub returns : {E A : Type 0} → Exit E A → Bool
returns (done a) = true
returns (fail e) = false
returns panic = false
returns waiting = false

-- What `m` writes satisfies `P true` if `m` returns, and `P false` if it does not.
pub record Traced {E A : Type 0} (P : Bool → List Write → Type 0) (m : Action E A) : Type 0 where
  pub at :
      (s : State)
      → (ws : List Write) × P (returns (m s).0) ws
        × (writes (m s).1.history ≡ ws ++ writes s.history)

module _ {E A : Type 0} where
  pub Traced-Within : {P : List Write → Type 0} (m : Action E A) → Within P m → Traced (λ _. P) m
  Traced-Within m km = record { at = λ s. km.at s }

  pub Within-Traced :
      {P : Bool → List Write → Type 0} {R : List Write → Type 0} (m : Action E A)
      → ((b : Bool) (ws : List Write) → P b ws → R ws)
      → Traced P m
      → Within R m
  Within-Traced m weaken km = record {
    at = λ s. let (ws, p, e) = km.at s in (ws, weaken _ ws p, e);
  }

  pub pure-Traced : {P : Bool → List Write → Type 0} (a : A) → P true [] → Traced {E = E} P (pure a)
  pure-Traced a p = record { at = λ s. ([], p, refl) }

  pub raise-Traced :
      {P : Bool → List Write → Type 0} (e : E) → P false [] → Traced {A = A} P (raise e)
  raise-Traced e p = record { at = λ s. ([], p, refl) }

-- Two actions in a row: the later writes stand before the earlier ones.
module _ {E A B : Type 0} (P Q R : Bool → List Write → Type 0)
    (stopped : (ws : List Write) → Q false ws → P false ws)
    (joined : (b : Bool) (ws vs : List Write) → Q true ws → R b vs → P b (vs ++ ws)) where
  continue-Traced :
      (r : Exit E A) (f : A → Action E B) (s : State) (ws before : List Write)
      → Q (returns r) ws
      → writes s.history ≡ ws ++ before
      → ((a : A) → Traced R (f a))
      → (us : List Write) × P (returns (continue r f s).0) us
        × (writes (continue r f s).1.history ≡ us ++ before)
  continue-Traced (done a) f s ws before q e kf =
      let (vs, r, e') = (kf a).at s in
      (vs ++ ws, joined _ ws vs q r, e' ∙ ap (λ l. vs ++ l) e ∙ sym (append_assoc vs ws before))
  continue-Traced (fail x) f s ws before q e kf = (ws, stopped ws q, e)
  continue-Traced panic f s ws before q e kf = (ws, stopped ws q, e)
  continue-Traced waiting f s ws before q e kf = (ws, stopped ws q, e)

  pub bind-Traced :
      (m : Action E A) (f : A → Action E B)
      → Traced Q m
      → ((a : A) → Traced R (f a))
      → Traced P (m >>= f)
  unfolding ◌>>=◌
  bind-Traced m f km kf = record {
    at = λ s.
        let (ws, q, e) = km.at s in continue-Traced (m s).0 f (m s).1 ws (writes s.history) q e kf;
  }

module _ {E A B : Type 0} {P : Bool → List Write → Type 0} where
  silent_then :
      (r : Exit E A) (f : A → Action E B) (s : State)
      → P false []
      → ((a : A) → Traced P (f a))
      → (ws : List Write) × P (returns (continue r f s).0) ws
        × (writes (continue r f s).1.history ≡ ws ++ writes s.history)
  silent_then (done a) f s p kf = (kf a).at s
  silent_then (fail e) f s p kf = ([], p, refl)
  silent_then panic f s p kf = ([], p, refl)
  silent_then waiting f s p kf = ([], p, refl)

  pub Silent-bind-Traced :
      (m : Action E A) (f : A → Action E B)
      → Silent m
      → P false []
      → ((a : A) → Traced P (f a))
      → Traced P (m >>= f)
  unfolding ◌>>=◌
  Silent-bind-Traced m f km p kf = record {
    at = λ s.
        let (ws, q, e) = silent_then (m s).0 f (m s).1 p kf in
        (ws, q, e ∙ ap (λ l. ws ++ l) (km.at s));
  }

  pub some_or_bind-Traced :
      (e : E) (o : Option A) (f : A → Action E B)
      → (o ≡ none → P false [])
      → ((a : A) → o ≡ some a → Traced P (f a))
      → Traced P (some_or e o >>= f)
  unfolding ◌>>=◌
  some_or_bind-Traced e none f p kf = record { at = λ s. ([], p refl, refl) }
  some_or_bind-Traced e (some a) f p kf = record { at = (kf a refl).at }

pub ask_bind-Traced :
    {E B : Type 0} {P : Bool → List Write → Type 0} (w : World) (c : Call)
    (f : Response c → Action E B)
    → ((r : Response c) → write_of c r ≡ none)
    → P false []
    → ((r : Response c) → Traced P (f r))
    → Traced P (ask w c >>= f)
unfolding ask
ask_bind-Traced w c f quiet p kf =
    Silent-bind-Traced _ _ (record { at = λ s. rw (quiet (w.respond s.history c)) }) p kf
