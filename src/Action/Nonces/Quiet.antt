-- ===== src/Action/Nonces/Quiet.antt =====
-- Actions that leave the counter aligned however they end: those that send no transaction.
use money_interoperability.Prelude.{ℕ, ◌≡◌, none}
use money_interoperability.World.{World, Call, Response, Reply, ok, err}
use money_interoperability.Action.Monad.{
  Exit, done, fail, panic, waiting, State, Action, pure, raise, or_raise, continue, ◌>>=◌, ask,
}
use money_interoperability.Action.Nonces.{IsAligned, accepted}

module _ (base : ℕ) where
  pub record Quiet {E A : Type 0} (m : Action E A) : Type 0 where
    pub at : (s : State) → IsAligned base s → IsAligned base (m s).1

module _ {base : ℕ} {E A : Type 0} where
  pub pure-Quiet : (a : A) → Quiet base {E = E} (pure a)
  pure-Quiet a = record { at = λ s h. h }

  pub raise-Quiet : (e : E) → Quiet base {A = A} (raise e)
  raise-Quiet e = record { at = λ s h. h }

  pub or_raise-Quiet : {F : Type 0} (f : F → E) (r : Reply F A) → Quiet base (or_raise f r)
  or_raise-Quiet f (ok a) = pure-Quiet a
  or_raise-Quiet f (err e) = raise-Quiet (f e)

module _ {base : ℕ} {E A B : Type 0} where
  continue-Quiet :
      (r : Exit E A) (f : A → Action E B) (s : State)
      → ((a : A) → Quiet base (f a))
      → IsAligned base s
      → IsAligned base (continue r f s).1
  continue-Quiet (done a) f s kf h = (kf a).at s h
  continue-Quiet (fail e) f s kf h = h
  continue-Quiet panic f s kf h = h
  continue-Quiet waiting f s kf h = h

  pub bind-Quiet :
      (m : Action E A) (f : A → Action E B)
      → Quiet base m
      → ((a : A) → Quiet base (f a))
      → Quiet base (m >>= f)
  unfolding ◌>>=◌
  bind-Quiet m f km kf = record { at = λ s h. continue-Quiet (m s).0 f (m s).1 kf (km.at s h) }

pub ask_bind-Quiet :
    {base : ℕ} {E B : Type 0} (w : World) (c : Call) (f : Response c → Action E B)
    → ((r : Response c) → accepted c r ≡ none)
    → ((r : Response c) → Quiet base (f r))
    → Quiet base (ask w c >>= f)
unfolding ask
ask_bind-Quiet w c f quiet kf =
    bind-Quiet _ _
      (record {
        at = λ s h. record { bounded = h.bounded; consecutive = rw (quiet _) h.consecutive };
      })
      kf

pub ruleset quiet_rules = (pure-Quiet, raise-Quiet, or_raise-Quiet, ask_bind-Quiet, bind-Quiet)
