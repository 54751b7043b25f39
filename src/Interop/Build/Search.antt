-- ===== src/Interop/Build/Search.antt =====
-- The search for Solidity files ends, and prints each of them once.
use mathlib.Core.List.{
  Perm, append-nil, perm_append_comm, perm-append_left_iff, perm-append_right_iff,
}
use mathlib.Core.List.Perm
use money_interoperability.Prelude.{
  sym, ℕ, zero, suc, ◌+◌, ◌<◌, ◌≡◌, refl, some, List, [], ◌∷◌, ◌++◌, if◌then◌else◌, arith,
  Bool-cases, inl, inr,
}
use money_interoperability.Interop.Build.{
  FilePath, emit_solidity_rerun, Dir, unreadable, directory, Entries, no_more, subdirectory, file,
  other, is_sol, pushed, printed, search_loop,
}

-- The Solidity files of a tree, each directory in its place, and the number of its directories.
mutual
  pub sol_files : Dir → List FilePath
  sol_files unreadable = []
  sol_files (directory es) = sol_entries es

  pub sol_entries : Entries → List FilePath
  sol_entries no_more = []
  sol_entries (subdirectory d es) = sol_files d ++ sol_entries es
  sol_entries (file p ext es) = let rest = sol_entries es in if is_sol ext then p ∷ rest else rest
  sol_entries (other es) = sol_entries es

unfoldable mutual
  pub directories : Dir → ℕ
  directories unreadable = 1
  directories (directory es) = suc (inner es)

  pub inner : Entries → ℕ
  inner no_more = 0
  inner (subdirectory d es) = directories d + inner es
  inner (file p ext es) = inner es
  inner (other es) = inner es

-- The same over a queue.
queue_files : List Dir → List FilePath
queue_files [] = []
queue_files (d ∷ q) = sol_files d ++ queue_files q

queue_directories : List Dir → ℕ
queue_directories [] = 0
queue_directories (d ∷ q) = directories d + queue_directories q

string_assoc : (xs ys zs : List FilePath) → (xs ++ ys) ++ zs ≡ xs ++ (ys ++ zs)
string_assoc [] ys zs = refl
string_assoc (x ∷ xs) ys zs = rw (string_assoc xs ys zs) refl

queue_files-append : (p q : List Dir) → queue_files (p ++ q) ≡ queue_files p ++ queue_files q
unfolding queue_files
queue_files-append [] q = refl
queue_files-append (d ∷ p) q =
    rw (queue_files-append p q) (sym (string_assoc (sol_files d) (queue_files p) (queue_files q)))

queue_directories-append :
    (p q : List Dir) → queue_directories (p ++ q) ≡ queue_directories p + queue_directories q
unfolding queue_directories
queue_directories-append [] q = omega arith
queue_directories-append (d ∷ p) q = omega (arith, queue_directories-append p q)

pushed-inner : (es : Entries) → queue_directories (pushed es) ≡ inner es
unfolding queue_directories pushed inner directories
pushed-inner no_more = refl
pushed-inner (subdirectory d es) = omega (arith, pushed-inner es)
pushed-inner (file p ext es) = pushed-inner es
pushed-inner (other es) = pushed-inner es

-- Three lists, the first two swapped.
swapped : (xs ys zs : List FilePath) → Perm (xs ++ (ys ++ zs)) (ys ++ (xs ++ zs))
swapped xs ys zs =
    rw (sym (string_assoc xs ys zs), sym (string_assoc ys xs zs))
      ((perm-append_right_iff zs).1 (perm_append_comm xs ys))

-- One round of the loop moves files from the tree to the output.
entries-perm : (es : Entries) → Perm (printed es ++ queue_files (pushed es)) (sol_entries es)
unfolding printed pushed queue_files sol_entries sol_files
entries-perm no_more = Perm.refl _
entries-perm (subdirectory d es) =
    Perm.trans (swapped (printed es) (sol_files d) (queue_files (pushed es)))
      ((perm-append_left_iff (sol_files d)).1 (entries-perm es))
entries-perm (file p ext es) = elim (Bool-cases (is_sol ext)) [
  | inl sol ↦ rw sol (Perm.cons p (entries-perm es))
  | inr skipped ↦ rw skipped (entries-perm es)
]
entries-perm (other es) = entries-perm es

round-perm :
    (es : Entries) (queue : List Dir) (rest : List FilePath)
    → Perm rest (queue_files (queue ++ pushed es))
    → Perm (printed es ++ rest) (sol_entries es ++ queue_files queue)
round-perm es queue rest p =
    Perm.trans ((perm-append_left_iff (printed es)).1 (rw queue_files-append at p)) (
      Perm.trans
        ((perm-append_left_iff (printed es)).1
          (perm_append_comm (queue_files queue) (queue_files (pushed es))))
        (rw (sym (string_assoc (printed es) (queue_files (pushed es)) (queue_files queue)))
          ((perm-append_right_iff (queue_files queue)).1 (entries-perm es))))

search_loop-perm :
    (fuel : ℕ) (queue : List Dir)
    → queue_directories queue < fuel
    → (out : List FilePath) × (search_loop fuel queue ≡ some out) × Perm out (queue_files queue)
unfolding search_loop queue_directories queue_files directories sol_files
search_loop-perm zero queue h = absurd (omega arith)
search_loop-perm (suc fuel) [] h = ([], refl, Perm.refl _)
search_loop-perm (suc fuel) (unreadable ∷ queue) h = search_loop-perm fuel queue (omega arith)
search_loop-perm (suc fuel) (directory es ∷ queue) h =
    let (rest, e, p) =
      search_loop-perm fuel (queue ++ pushed es)
        (omega (arith, queue_directories-append queue (pushed es), pushed-inner es)) in
    (printed es ++ rest, rw e refl, round-perm es queue rest p)

-- With more rounds than there are directories the search returns, and it prints each Solidity file of
-- the tree as often as it stands in it, and nothing else.
pub emit_solidity_rerun-perm :
    (fuel : ℕ) (root : Dir)
    → directories root < fuel
    → (out : List FilePath) × (emit_solidity_rerun fuel (some root) ≡ some out)
      × Perm out (sol_files root)
unfolding emit_solidity_rerun queue_directories queue_files
emit_solidity_rerun-perm fuel root h =
    let (out, e, p) = search_loop-perm fuel (root ∷ []) (omega arith) in
    (out, e, rw append-nil at p)
