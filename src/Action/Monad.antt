-- ===== src/Action/Monad.antt =====
-- The monad of the relayer's `async fn`s: the exit of an action, its state, the calls to services,
-- and the atomic operations on the shared nonce.
use money_interoperability.Prelude.{ℕ, ◌∷◌, Option, none, some, wrapping_add, wrapping_sub}
use money_interoperability.World.{Call, Response, History, World, Reply, ok, err}

pub data Exit (E A : Type 0) : Type 0 where
  done : A → Exit E A
  fail : E → Exit E A
  panic : Exit E A
  waiting : Exit E A

pub record State : Type 0 where
  pub relayer_nonce : ℕ
  pub history : History

abbrev pub Action : Type 0 → Type 0 → Type 0
Action E A = State → Exit E A × State

module _ {E A : Type 0} where
  abbrev pub pure : A → Action E A
  pure a s = (done a, s)

  abbrev pub raise : E → Action E A
  raise e s = (fail e, s)

  abbrev pub unreachable : Action E A
  unreachable s = (panic, s)

  -- A loop that has used the rounds allotted to it.
  abbrev pub still_waiting : Action E A
  still_waiting s = (waiting, s)

  -- The `?` operator on a reply, with the conversion of its error.
  abbrev pub or_raise : {F : Type 0} → (F → E) → Reply F A → Action E A
  or_raise f (ok a) = pure a
  or_raise f (err e) = raise (f e)

  abbrev pub some_or : E → Option A → Action E A
  some_or e (some a) = pure a
  some_or e none = raise e

module _ {E A B : Type 0} where
  abbrev pub continue : Exit E A → (A → Action E B) → Action E B
  continue (done a) f s = f a s
  continue (fail e) f s = (fail e, s)
  continue panic f s = (panic, s)
  continue waiting f s = (waiting, s)

  infixl 5 ◌>>=◌ ◌>>◌
  unfoldable pub ◌>>=◌ : Action E A → (A → Action E B) → Action E B
  ◌>>=◌ m f s = let (r, s') = m s in continue r f s'

  abbrev pub ◌>>◌ : Action E A → Action E B → Action E B
  m >> n = m >>= λ _. n

-- `.map_err` of a whole action.
unfoldable pub map_error : {E F A : Type 0} → (E → F) → Action E A → Action F A
map_error f m s =
    let (r, s') = m s in
    elim r [
      | done a ↦ (done a, s')
      | fail e ↦ (fail (f e), s')
      | panic ↦ (panic, s')
      | waiting ↦ (waiting, s')
    ]

unfoldable pub ask : World → {E : Type 0} (c : Call) → Action E (Response c)
ask w c s =
    let r = w.respond s.history c in
    (done r, record s { history = record { call = c; reply = r } ∷ s.history })

-- `relayer_nonce.fetch_add(1, SeqCst)` and `fetch_sub(1, SeqCst)`.
unfoldable pub fetch_add : {E : Type 0} → Action E ℕ
fetch_add s = (done s.relayer_nonce, record s { relayer_nonce = wrapping_add s.relayer_nonce 1 })

unfoldable pub fetch_sub : {E : Type 0} → Action E ℕ
fetch_sub s = (done s.relayer_nonce, record s { relayer_nonce = wrapping_sub s.relayer_nonce 1 })
