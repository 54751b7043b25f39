-- ===== src/Sidechain/Diff.antt =====
-- `compute_validator_diffs` of code/crates/relayer/src/sidechain/mod.rs: a `HashSet` is a list
-- without repetitions; the results are sorted, so the order of the set does not show.
pub mod Members
pub mod Applied
pub mod Skipped
use money_interoperability.Prelude.{
  ℕ, Bool, true, false, ◌&&◌, ◌||◌, not, List, [], ◌∷◌, map, keep, ltb, leb, ◌==◌, if◌then◌else◌,
  sort_by,
}
use money_interoperability.World.{Secp256k1Key, ValidatorInfo}

-- The derived `PartialEq` and `Ord`: fields in their order.
abbrev pub key_eq : Secp256k1Key → Secp256k1Key → Bool
key_eq a b = (a.x == b.x) && (a.y == b.y)

abbrev pub key_leb : Secp256k1Key → Secp256k1Key → Bool
key_leb a b = ltb a.x b.x || (a.x == b.x && leb a.y b.y)

abbrev pub info_eq : ValidatorInfo → ValidatorInfo → Bool
info_eq a b = key_eq a.validator_key b.validator_key && (a.power == b.power)

abbrev key_ltb : Secp256k1Key → Secp256k1Key → Bool
key_ltb a b = ltb a.x b.x || (a.x == b.x && ltb a.y b.y)

abbrev pub info_leb : ValidatorInfo → ValidatorInfo → Bool
info_leb a b =
    key_ltb a.validator_key b.validator_key
    || (key_eq a.validator_key b.validator_key && leb a.power b.power)

unfoldable pub contains : ValidatorInfo → List ValidatorInfo → Bool
contains v [] = false
contains v (x ∷ xs) = info_eq v x || contains v xs

-- `collect::<HashSet<_>>()`
unfoldable pub to_set : List ValidatorInfo → List ValidatorInfo
unfolding contains
to_set [] = []
to_set (v ∷ vs) = let rest = to_set vs in if contains v vs then rest else v ∷ rest

-- `a.difference(&b)`
unfoldable pub difference : List ValidatorInfo → List ValidatorInfo → List ValidatorInfo
unfolding contains
difference a b = keep (λ v. not (contains v b)) a

abbrev pub key_of : ValidatorInfo → Secp256k1Key
key_of v = v.validator_key

unfoldable pub compute_validator_diffs :
    List ValidatorInfo → List ValidatorInfo → List ValidatorInfo × List Secp256k1Key
unfolding to_set difference
compute_validator_diffs old_validators new_validators =
    let old = to_set old_validators in
    let new = to_set new_validators in
    (sort_by info_leb (difference new old), sort_by key_leb (map key_of (difference old new)))
