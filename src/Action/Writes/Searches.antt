-- ===== src/Action/Writes/Searches.antt =====
-- Searches over a range of numbers that stop at their first write.
use money_interoperability.Prelude.{ℕ, zero, suc, ◌+◌, ◌≡◌, refl, ap, ◌∙◌, List, [], ◌++◌}
use money_interoperability.Action.{
  Exit, done, fail, State, Action, continue, ◌>>=◌, Flow, next, stop, and_then, for_range,
}
use money_interoperability.Action.Writes.{Write, writes}

-- A loop that goes on as long as nothing is written.
pub data Searched {E : Type 0} (P : List Write → Type 0)
    : Exit E (Flow (Unit {0}) (Unit {0})) → List Write → Type 0 where
  passed : Searched P (done (next tt)) []
  over : (ws : List Write) → P ws → Searched P (done (stop tt)) ws
  failed_at : (ws : List Write) (e : E) → P ws → Searched P (fail e) ws

abbrev pub Searches :
    {E : Type 0} → (List Write → Type 0) → Action E (Flow (Unit {0}) (Unit {0})) → Type 0
Searches P m =
    (s : State)
    → (ws : List Write) × Searched P (m s).0 ws × (writes (m s).1.history ≡ ws ++ writes s.history)

module _ {E : Type 0} {P : List Write → Type 0}
    (body : ℕ → Unit {0} → Action E (Flow (Unit {0}) (Unit {0}))) where
  and_then-Searches :
      (rest : Unit {0} → Action E (Flow (Unit {0}) (Unit {0})))
      → Searches P (rest tt)
      → (exit : Exit E (Flow (Unit {0}) (Unit {0}))) (ws : List Write) → Searched P exit ws
      → (s t : State) → writes t.history ≡ ws ++ writes s.history
      → let (exit', t') = continue exit (λ found. and_then found rest) t in
        (vs : List Write) × Searched P exit' vs × (writes t'.history ≡ vs ++ writes s.history)
  unfolding and_then
  and_then-Searches rest later _ _ passed s t e =
      let (vs, o, e') = later t in (vs, o, e' ∙ ap (λ l. vs ++ l) e)
  and_then-Searches rest later _ ws (over _ p) s t e = (ws, over ws p, e)
  and_then-Searches rest later _ ws (failed_at _ x p) s t e = (ws, failed_at ws x p, e)

  pub for_range-Searches :
      ((i : ℕ) → Searches P (body i tt)) → (rounds i : ℕ) → Searches P (for_range rounds i tt body)
  unfolding for_range ◌>>=◌
  for_range-Searches each zero i s = ([], passed, refl)
  for_range-Searches each (suc rounds) i s =
      let (ws, o, e) = each i s in
      and_then-Searches (λ acc. for_range rounds (i + 1) acc body)
        (for_range-Searches each rounds (i + 1)) (body i tt s).0 ws o s (body i tt s).1 e
