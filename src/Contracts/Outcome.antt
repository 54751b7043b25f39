-- ===== src/Contracts/Outcome.antt =====
-- What a call of a contract ends in: a condition on what it returns and one on its error.
use money_interoperability.Prelude.{◌≡◌, Bool, true, false, if◌then◌else◌, refl, subst}
use money_interoperability.World.{Reply, ok, err}
use money_interoperability.Contracts.Mapping.{revert_if, ◌>>=◌, ◌>>◌}

pub data Ends {E A : Type 0} (P : A → Type 0) (Q : E → Type 0) : Reply E A → Type 0 where
  accepted : {a : A} → P a → Ends P Q (ok a)
  refused : {e : E} → Q e → Ends P Q (err e)

module _ {E A : Type 0} {P : A → Type 0} {Q : E → Type 0} where
  pub revert_if-Ends :
      (b : Bool) (e : E) (k : Reply E A)
      → Q e
      → (b ≡ false → Ends P Q k)
      → Ends P Q (revert_if b e >> k)
  unfolding revert_if
  revert_if-Ends true e k q next = refused q
  revert_if-Ends false e k q next = next refl

  -- The same, where the condition on the error depends on the test.
  pub revert_when-Ends :
      (b : Bool) (e : E) (k : Reply E A)
      → (b ≡ true → Q e)
      → (b ≡ false → Ends P Q k)
      → Ends P Q (revert_if b e >> k)
  unfolding revert_if
  revert_when-Ends true e k q next = refused (q refl)
  revert_when-Ends false e k q next = next refl

  pub if-Ends :
      (b : Bool) (x y : Reply E A)
      → (b ≡ true → Ends P Q x)
      → (b ≡ false → Ends P Q y)
      → Ends P Q (if b then x else y)
  if-Ends true x y h k = h refl
  if-Ends false x y h k = k refl

  pub bind-Ends :
      {B : Type 0} {R : B → Type 0} (m : Reply E B) (k : B → Reply E A)
      → Ends R Q m
      → ((b : B) → R b → Ends P Q (k b))
      → Ends P Q (m >>= k)
  bind-Ends (ok b) k (accepted r) next = next b r
  bind-Ends (err e) k (refused q) next = refused q

  pub returned : (r : Reply E A) (a : A) → Ends P Q r → r ≡ ok a → P a
  returned (ok a) b (accepted p) e = subst P (cc) p
  returned (err x) b (refused q) e = absurd (cc)

  pub reverted_with : (r : Reply E A) (e : E) → Ends P Q r → r ≡ err e → Q e
  reverted_with (ok a) x (accepted p) eq = absurd (cc)
  reverted_with (err e) x (refused q) eq = subst Q (cc) q

-- No condition.
pub any-Ends : {E A : Type 0} (r : Reply E A) → Ends (λ _. Unit {0}) (λ _. Unit {0}) r
any-Ends (ok a) = accepted tt
any-Ends (err e) = refused tt

pub map-Ends :
    {E A : Type 0} {P P' : A → Type 0} {Q Q' : E → Type 0} (r : Reply E A)
    → ((a : A) → P a → P' a)
    → ((e : E) → Q e → Q' e)
    → Ends P Q r
    → Ends P' Q' r
map-Ends (ok a) f g (accepted p) = accepted (f a p)
map-Ends (err e) f g (refused q) = refused (g e q)
