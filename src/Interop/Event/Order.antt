-- ===== src/Interop/Event/Order.antt =====
-- The events of a stream: those of a window are sorted by their positions, and those of the
-- subscription are passed on with rising positions.
use mathlib.Core.List.{Perm}
use money_interoperability.Prelude.{
  true, ℕ, ◌<◌, ◌⊎◌, arith, ltb, ltb→lt, u64_max, subst, fun_ext, ap, ◌∙◌, ◌≡◌, refl, sym, Bool,
  false, Option, none, some, List, [], ◌∷◌, pair_leb, IsSorted, sort_by-perm, sort_by-IsSorted,
  IsTotalOrder, pair_leb-IsTotalOrder, if◌then◌else◌, Bool-cases, inl, inr,
}
use money_interoperability.World.{World, OmInteropLog}
use money_interoperability.Action.{pure, ◌>>=◌, Action, for_each, fold_each}
use money_interoperability.Action.Bind.{bind_assoc, pure_bind}
use money_interoperability.Interop.Error.{InteropError}
use money_interoperability.Interop.Event.{
  unwrap_or_max, emit_live, Position, log_position, should_emit, seen, sort_key, sort_logs,
}

-- The order of logs by their keys.
abbrev pub log_leb : OmInteropLog → OmInteropLog → Bool
log_leb a b = pair_leb (sort_key a) (sort_key b)

log_leb-IsTotalOrder : IsTotalOrder log_leb
log_leb-IsTotalOrder = record {
  total = λ a b h. pair_leb-IsTotalOrder.total (sort_key a) (sort_key b) h;
  trans = λ a b c h k. pair_leb-IsTotalOrder.trans (sort_key a) (sort_key b) (sort_key c) h k;
}

-- Sorting the logs of a window gives a permutation of them in which each log is, by its block and its
-- index with missing ones last, at most every later one.
pub sort_logs-IsSorted :
    (logs : List OmInteropLog) → IsSorted log_leb (sort_logs logs) × Perm (sort_logs logs) logs
unfolding sort_logs
sort_logs-IsSorted logs = (sort_by-IsSorted log_leb-IsTotalOrder logs, sort_by-perm log_leb logs)

-- What the subscription's loop passes on of a list of logs, with its last position before them.
unfoldable pub emitted : Option Position → List OmInteropLog → List OmInteropLog
emitted last_position [] = []
emitted last_position (log ∷ logs) =
    let rest = emitted (should_emit (log_position log) last_position).1 logs in
    if (should_emit (log_position log) last_position).0 then log ∷ rest else rest

-- The last position after them.
unfoldable pub last_emitted : Option Position → List OmInteropLog → Option Position
last_emitted last_position [] = last_position
last_emitted last_position (log ∷ logs) =
    last_emitted (should_emit (log_position log) last_position).1 logs

-- An earlier block, or the same block and a lower index.
abbrev pub Before : Position → Position → Type 0
Before (a, b) (c, d) = (a < c) ⊎ ((a ≡ c) × (b < d))

-- The position of a log with this block and index; a log of the chain without an index comes last in
-- its block, and a log without a block has no position.
abbrev pub place : Option ℕ → Option ℕ → Option Position
place none index = none
place (some block) none = some (block, u64_max)
place (some block) (some index) = some (block, index)

abbrev pub place_of : OmInteropLog → Option Position
place_of log = place log.block_number log.log_index

abbrev pub Past : Option Position → Position → Type 0
Past none position = Unit
Past (some last) position = Before last position

abbrev Continues : Option Position → Option Position → (Option Position → Type 0) → Type 0
Continues none last_position later = later last_position
Continues (some position) last_position later = Past last_position position × later (some position)

-- Each log with a position lies past every one before it, and past `last_position`.
abbrev pub IsRising : Option Position → List OmInteropLog → Type 0
IsRising last_position [] = Unit
IsRising last_position (log ∷ logs) =
    let later : Option Position → Type 0 = λ p. IsRising p logs in
    Continues (place_of log) last_position later

-- What is passed on of a list of logs: those without a position, and those past all that were passed
-- on before; the position of another log is at most the last one passed on.
pub data PassedOn : Option Position → List OmInteropLog → List OmInteropLog → Type 0 where
  no_logs : (last_position : Option Position) → PassedOn last_position [] []
  unplaced :
      (last_position : Option Position) (log : OmInteropLog) (logs out : List OmInteropLog)
      → place_of log ≡ none
      → PassedOn last_position logs out
      → PassedOn last_position (log ∷ logs) (log ∷ out)
  new :
      (last_position : Option Position) (log : OmInteropLog) (logs out : List OmInteropLog)
      (position : Position)
      → place_of log ≡ some position
      → Past last_position position
      → PassedOn (some position) logs out
      → PassedOn last_position (log ∷ logs) (log ∷ out)
  old :
      (last : Position) (log : OmInteropLog) (logs out : List OmInteropLog) (position : Position)
      → place_of log ≡ some position
      → ¬ Before last position
      → PassedOn (some last) logs out
      → PassedOn (some last) (log ∷ logs) out

log_position_lem : (log : OmInteropLog) → log_position log ≡ place_of log
unfolding log_position
log_position_lem log = by_fields log.block_number log.log_index
  where
    by_fields :
        (block index : Option ℕ)
        → (elim block [ none ↦ none | some b ↦ some (b, unwrap_or_max index) ]) ≡ place block index
    by_fields none index = refl
    by_fields (some b) none = refl
    by_fields (some b) (some i) = refl

unseen-Past :
    (position : Position) (last_position : Option Position)
    → seen position last_position ≡ false
    → Past last_position position
unseen-Past position none e = tt
unseen-Past (a, b) (some (c, d)) e = elim (Bool-cases (ltb c a)) [
  | inl later ↦ inl (ltb→lt c a later)
  | inr same ↦ inr (ground arith, ground arith)
]

seen_last :
    (position : Position) (last_position : Option Position)
    → seen position last_position ≡ true
    → (last : Position) × (last_position ≡ some last) × (¬ Before last position)
seen_last position none e = absurd (ground arith)
seen_last (a, b) (some (c, d)) e = ((c, d), refl, not_before)
  where
    not_before : ¬ Before (c, d) (a, b)
    not_before (inl lt) = ground (arith, lt)
    not_before (inr (same, lt)) = ground (arith, same, lt)

PassedOn-step :
    (last_position : Option Position) (log : OmInteropLog) (logs : List OmInteropLog)
    (rest : Option Position → List OmInteropLog) (o : Option Position)
    → place_of log ≡ o
    → ((p : Option Position) → PassedOn p logs (rest p))
    → PassedOn last_position (log ∷ logs) (
        if (should_emit o last_position).0
        then log ∷ rest (should_emit o last_position).1
        else rest (should_emit o last_position).1)
unfolding should_emit
PassedOn-step last_position log logs rest none e h =
    unplaced last_position log logs _ e (h last_position)
PassedOn-step last_position log logs rest (some position) e h =
    elim (Bool-cases (seen position last_position)) [
      | inl before ↦
          let (last, at, late) = seen_last position last_position before in
          rw before (
            subst (λ q. PassedOn q (log ∷ logs) (rest q)) (sym at)
              (old last log logs _ position e late (h (some last))))
      | inr later ↦ rw later (
          new last_position log logs _ position e (unseen-Past position last_position later)
            (h (some position)))
    ]

emitted-PassedOn :
    (last_position : Option Position) (logs : List OmInteropLog)
    → PassedOn last_position logs (emitted last_position logs)
unfolding emitted
emitted-PassedOn last_position [] = no_logs last_position
emitted-PassedOn last_position (log ∷ logs) =
    PassedOn-step last_position log logs (λ p. emitted p logs) (log_position log)
      (sym (log_position_lem log)) (λ p. emitted-PassedOn p logs)

PassedOn-IsRising :
    {last_position : Option Position} {logs out : List OmInteropLog}
    → PassedOn last_position logs out
    → IsRising last_position out
PassedOn-IsRising (no_logs last_position) = tt
PassedOn-IsRising (unplaced last_position log logs out e p) =
    subst (λ o. Continues o last_position (λ q. IsRising q out)) (sym e) (PassedOn-IsRising p)
PassedOn-IsRising (new last_position log logs out position e past p) =
    subst (λ o. Continues o last_position (λ q. IsRising q out)) (sym e) (past, PassedOn-IsRising p)
PassedOn-IsRising (old last log logs out position e late p) = PassedOn-IsRising p

-- Of any list of logs and from any last position, the logs with a position that are passed on have
-- positions that rise strictly, by block and then by index, the first of them past the last
-- position; and a log is not passed on only if its position is at most the last one passed on.
pub emitted-IsRising :
    (last_position : Option Position) (logs : List OmInteropLog)
    → IsRising last_position (emitted last_position logs)
      × PassedOn last_position logs (emitted last_position logs)
emitted-IsRising last_position logs =
    let passed = emitted-PassedOn last_position logs in (PassedOn-IsRising passed, passed)

-- The body of the subscription's loop on a list of logs gives the consumer exactly what is passed on,
-- and ends with the last position of that.
pub emit_live-emitted :
    {E : Type 0} (w : World) (from : InteropError → E)
    (consume : OmInteropLog → Action E (Unit {0})) (logs : List OmInteropLog)
    (last_position : Option Position)
    → fold_each logs last_position (emit_live w from consume) ≡ (
        for_each (emitted last_position logs) consume >>= λ _.
        pure (last_emitted last_position logs))
unfolding emitted last_emitted fold_each for_each emit_live
emit_live-emitted w from consume [] last_position = sym (pure_bind tt _)
emit_live-emitted w from consume (log ∷ logs) last_position =
    elim (Bool-cases (should_emit (log_position log) last_position).0) [
      | inl emit ↦ rw emit (
          bind_assoc _ _ (consume log)
          ∙ ap (λ k. consume log >>= k)
              (fun_ext (λ _.
                pure_bind (should_emit (log_position log) last_position).1 _
                ∙ emit_live-emitted w from consume logs _))
          ∙ sym (bind_assoc _ _ (consume log)))
      | inr drop ↦ rw drop (
          pure_bind (should_emit (log_position log) last_position).1 _
          ∙ emit_live-emitted w from consume logs _)
    ]
