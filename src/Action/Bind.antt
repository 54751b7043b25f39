-- ===== src/Action/Bind.antt =====
-- The laws of the bind.
use money_interoperability.Prelude.{◌≡◌, refl, fun_ext}
use money_interoperability.Action.Monad.{
  Exit, done, fail, panic, waiting, State, Action, pure, continue, ◌>>=◌,
}

module _ {E A B C : Type 0} (f : A → Action E B) (g : B → Action E C) where
  continue_assoc :
      (r : Exit E A) (s : State)
      → continue (continue r f s).0 g (continue r f s).1 ≡ continue r (λ a. f a >>= g) s
  unfolding ◌>>=◌
  continue_assoc (done a) s = refl
  continue_assoc (fail e) s = refl
  continue_assoc panic s = refl
  continue_assoc waiting s = refl

  pub bind_assoc : (m : Action E A) → ((m >>= f) >>= g) ≡ (m >>= λ a. f a >>= g)
  unfolding ◌>>=◌
  bind_assoc m = fun_ext (λ s. continue_assoc (m s).0 (m s).1)

pub pure_bind : {E A B : Type 0} (a : A) (f : A → Action E B) → (pure a >>= f) ≡ f a
unfolding ◌>>=◌
pure_bind a f = refl
