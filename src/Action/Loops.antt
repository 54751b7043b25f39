-- ===== src/Action/Loops.antt =====
-- The loops of the relayer: over a list, over a range of numbers with an early exit, and over the
-- block range of a query in windows of at most `max_block_range` blocks (`while start <= to_block`
-- in code/crates/relayer/src/incoming/recovery.rs, outgoing/recovery.rs and
-- code/crates/onemoney_interop/src/event.rs).
pub mod Windows
use money_interoperability.Prelude.{
  ℕ, zero, suc, ◌+◌, Bool, Option, none, some, List, [], ◌∷◌, min, leb, if◌then◌else◌, wrapping_add,
  wrapping_sub,
}
use money_interoperability.Action.Monad.{Action, pure, still_waiting, ◌>>=◌, ◌>>◌}

abbrev pub max_block_range : ℕ
max_block_range = 100_000

-- The last block of the window that begins at `start`.
abbrev pub window_end : ℕ → ℕ → ℕ
window_end start to = min (wrapping_sub (wrapping_add start max_block_range) 1) to

-- What the body of a loop gives: the variables of the next round, or the value with which it
-- leaves the loop.
pub data Flow (S B : Type 0) : Type 0 where
  next : S → Flow S B
  stop : B → Flow S B

module _ {E A : Type 0} where
  -- `for x in xs { body(x).await?; }`
  unfoldable pub for_each : List A → (A → Action E (Unit {0})) → Action E (Unit {0})
  for_each [] body = pure tt
  for_each (x ∷ xs) body = body x >>= λ _. for_each xs body

  -- The same over the variables that the loop assigns.
  unfoldable pub fold_each : {S : Type 0} → List A → S → (A → S → Action E S) → Action E S
  fold_each [] acc body = pure acc
  fold_each (x ∷ xs) acc body = body x acc >>= λ acc'. fold_each xs acc' body

module _ {E S B : Type 0} where
  unfoldable pub and_then : Flow S B → (S → Action E (Flow S B)) → Action E (Flow S B)
  and_then (next acc) rest = rest acc
  and_then (stop b) rest = pure (stop b)

  -- `for i in i..i + rounds`, left as soon as the body stops.
  unfoldable pub for_range : ℕ → ℕ → S → (ℕ → S → Action E (Flow S B)) → Action E (Flow S B)
  for_range zero i acc body = pure (next acc)
  for_range (suc rounds) i acc body =
      body i acc >>= λ found. and_then found (λ acc'. for_range rounds (i + 1) acc' body)

  -- `while start <= to { let end = …; body(start, end); start = end + 1; }`
  unfoldable pub scan_blocks :
      ℕ → ℕ → ℕ → S → (ℕ → ℕ → S → Action E (Flow S B)) → Action E (Flow S B)
  scan_blocks zero start to acc body = still_waiting
  scan_blocks (suc fuel) start to acc body =
      let end = window_end start to in
      let rest = body start end acc >>= λ found.
      and_then found (λ acc'. scan_blocks fuel (wrapping_add end 1) to acc' body) in
      if leb start to then rest else pure (next acc)

  -- The body on each window of a list, left as soon as it stops.
  unfoldable pub for_windows :
      List (ℕ × ℕ) → S → (ℕ → ℕ → S → Action E (Flow S B)) → Action E (Flow S B)
  for_windows [] acc body = pure (next acc)
  for_windows ((start, end) ∷ ws) acc body =
      body start end acc >>= λ found. and_then found (λ acc'. for_windows ws acc' body)
