-- ===== src/Contracts/Pending.antt =====
-- code/solidity/src/TxHashMapping.sol: an array of incomplete hashes with the index that stores the
-- place of each hash, plus one. TxHashMapping has three of them.
pub mod Places
use money_interoperability.Prelude.{
  ltb, ℕ, ◌+◌, ◌-◌, Bool, not, Option, none, some, List, [], ◌∷◌, ◌++◌, length, take, ◌==◌,
  if◌then◌else◌,
}
use money_interoperability.World.{Hash}
use money_interoperability.Contracts.Mapping.{put, get_elem?, set}

pub record Pending : Type 0 where
  pub hashes : List Hash
  pub index : Hash → ℕ

-- The storage of a new contract.
abbrev pub nothing_pending : Pending
nothing_pending = record { hashes = []; index = λ _. 0 }

unfoldable pub push : Hash → Pending → Pending
push h p =
    if p.index h == 0
    then record { hashes = p.hashes ++ h ∷ []; index = put p.index h (length p.hashes + 1) }
    else p

-- `array.pop()`.
abbrev pub pop : List Hash → List Hash
pop xs = take (length xs - 1) xs

-- `if (idx != last) { .. }`, then the pop: `none` is the panic of a read out of bounds.
unfoldable pub fill_gap : Hash → ℕ → Pending → Option Pending
fill_gap h idx p =
    let last : ℕ = length p.hashes - 1 in
    if idx == last
    then some (record { hashes = pop p.hashes; index = put p.index h 0 })
    else elim (get_elem? p.hashes last) [
      | none ↦ none
      | some moved ↦
          if ltb idx (length p.hashes)
          then some (record {
            hashes = pop (set p.hashes idx moved);
            index = put (put p.index moved (idx + 1)) h 0;
          })
          else none
    ]

-- The removal of a hash: `none` is a panic, of `length - 1` at an empty array too.
unfoldable pub remove : Hash → Pending → Option Pending
unfolding fill_gap
remove h p =
    if p.index h == 0
    then some p
    else if length p.hashes == 0
    then none
    else fill_gap h (p.index h - 1) p

-- Whether the array lists the hash, by its index.
abbrev pub listed : Pending → Hash → Bool
listed p h = not (p.index h == 0)
