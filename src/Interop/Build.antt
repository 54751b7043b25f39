-- ===== src/Interop/Build.antt =====
-- code/crates/onemoney_interop/build.rs: the lines that tell cargo when to run the script again, and
-- the call of the Solidity compiler.
pub mod Search
use text.Mathlib.Text.{◌==◌ as str_eq}
use money_interoperability.Prelude.{
  ℕ, zero, suc, Bool, true, false, ◌&&◌, Option, none, some, String, List, [], ◌∷◌, ◌++◌,
  if◌then◌else◌, ◌≡◌,
}
use money_interoperability.Action.{Exit, done, panic, waiting}

-- A path by its components, the last one first: `parent` drops it, and `join` adds one.
abbrev pub FilePath : Type 0
FilePath = List String

abbrev parent : FilePath → Option FilePath
parent [] = none
parent (c ∷ p) = some p

-- The directories below a path, as `fs::read_dir` gives them: a directory that cannot be read, and
-- the entries of one that can. An entry is a directory, a file with its path and its extension, or
-- anything else, such as a link or an entry with an error.
mutual
  pub data Dir : Type 0 where
    unreadable : Dir
    directory : Entries → Dir

  pub data Entries : Type 0 where
    no_more : Entries
    subdirectory : Dir → Entries → Entries
    file : FilePath → Option String → Entries → Entries
    other : Entries → Entries

-- `extension().is_some_and(|ext| ext == "sol")`
abbrev pub is_sol : Option String → Bool
is_sol none = false
is_sol (some ext) = str_eq ext "sol"

-- What the loop over the entries pushes to the queue, in its order.
unfoldable pub pushed : Entries → List Dir
pushed no_more = []
pushed (subdirectory d es) = d ∷ pushed es
pushed (file p ext es) = pushed es
pushed (other es) = pushed es

-- What it prints, in its order.
unfoldable pub printed : Entries → List FilePath
printed no_more = []
printed (subdirectory d es) = printed es
printed (file p ext es) = let rest = printed es in if is_sol ext then p ∷ rest else rest
printed (other es) = printed es

abbrev pub then_prints : List FilePath → Option (List FilePath) → Option (List FilePath)
then_prints ps none = none
then_prints ps (some rest) = some (ps ++ rest)

-- The loop over the queue, on fuel: `none` means that the fuel ran out.
unfoldable pub search_loop : ℕ → List Dir → Option (List FilePath)
unfolding pushed printed
search_loop zero queue = none
search_loop (suc fuel) [] = some []
search_loop (suc fuel) (unreadable ∷ queue) = search_loop fuel queue
search_loop (suc fuel) (directory es ∷ queue) =
    then_prints (printed es) (search_loop fuel (queue ++ pushed es))

-- `emit_solidity_rerun`: `none` is a path that does not exist.
unfoldable pub emit_solidity_rerun : ℕ → Option Dir → Option (List FilePath)
emit_solidity_rerun fuel none = some []
emit_solidity_rerun fuel (some root) = search_loop fuel (root ∷ [])

-- What the script reads: the manifest's directory, whether foundry.lock exists, the sources below
-- `solidity/src`, whether forge starts and succeeds, OUT_DIR, and whether the clock is after the epoch
-- and the stamp can be written.
pub record Host : Type 0 where
  pub manifest_dir : Option FilePath
  pub has_lock : Bool
  pub sources : Option Dir
  pub forge : Option Bool
  pub out_dir : Option FilePath
  pub has_time : Bool
  pub can_write : Bool

-- `manifest_dir.parent().parent()`: `none` panics.
abbrev pub grandparent : Option FilePath → Option FilePath
grandparent none = none
grandparent (some []) = none
grandparent (some (c ∷ p)) = parent p

abbrev pub has_succeeded : Option Bool → Bool
has_succeeded none = false
has_succeeded (some b) = b

-- The stamp of a build, with its line; `none` panics.
abbrev pub stamp : Host → Option FilePath → Option (List FilePath)
stamp host none = some []
stamp host (some dir) =
    if host.has_time && host.can_write then some (("forge-build.stamp" ∷ dir) ∷ []) else none

abbrev pub lock_lines : Bool → FilePath → List FilePath
lock_lines true solidity_root = ("foundry.lock" ∷ solidity_root) ∷ []
lock_lines false solidity_root = []

abbrev pub stamped : List FilePath → Option (List FilePath) → Exit ⊥ (List FilePath)
stamped lines none = panic
stamped lines (some more) = done (lines ++ more)

-- From the search on.
abbrev pub compiled : Host → List FilePath → Option (List FilePath) → Exit ⊥ (List FilePath)
compiled host lines none = waiting
compiled host lines (some found) =
    if has_succeeded host.forge then stamped (lines ++ found) (stamp host host.out_dir) else panic

-- The script, from the directory of the code on.
abbrev pub build_in : ℕ → Host → Option FilePath → Exit ⊥ (List FilePath)
build_in fuel host none = panic
build_in fuel host (some code_dir) =
    compiled host (("foundry.toml" ∷ code_dir) ∷ lock_lines host.has_lock ("solidity" ∷ code_dir))
      (emit_solidity_rerun fuel host.sources)

-- `main`, with the paths of its `rerun-if-changed` lines.
unfoldable pub build : ℕ → Host → Exit ⊥ (List FilePath)
build fuel host = build_in fuel host (grandparent host.manifest_dir)
