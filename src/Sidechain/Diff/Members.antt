-- ===== src/Sidechain/Diff/Members.antt =====
-- The members of the difference of two validator sets.
use money_interoperability.Prelude.{
  ◌∙◌, ◌≡◌, refl, Bool, true, false, ◌&&◌, ◌||◌, not, List, [], ◌∷◌, map, sort_by, insert_by,
  Bool-cases, inl, inr, arith,
}
use money_interoperability.World.{Secp256k1Key, ValidatorInfo}
use money_interoperability.Sidechain.Diff.{
  key_eq, info_eq, contains, to_set, difference, compute_validator_diffs, info_leb, key_leb, key_of,
}

info_eq_left : (a b x : ValidatorInfo) → info_eq a b ≡ true → info_eq a x ≡ info_eq b x
info_eq_left a b x e = ground arith

info_eq_right : (v a b : ValidatorInfo) → info_eq a b ≡ true → info_eq v a ≡ info_eq v b
info_eq_right v a b e = ground arith

pub contains_left :
    (a b : ValidatorInfo) (xs : List ValidatorInfo)
    → info_eq a b ≡ true
    → contains a xs ≡ contains b xs
unfolding contains
contains_left a b [] e = refl
contains_left a b (x ∷ xs) e = rw (info_eq_left a b x e, contains_left a b xs e) refl

or_swap : (a b c : Bool) → (a || (b || c)) ≡ (b || (a || c))
or_swap a b c = ground arith

contains-insert_by :
    (le : ValidatorInfo → ValidatorInfo → Bool) (v a : ValidatorInfo) (xs : List ValidatorInfo)
    → contains v (insert_by le a xs) ≡ (info_eq v a || contains v xs)
unfolding contains insert_by
contains-insert_by le v a [] = refl
contains-insert_by le v a (x ∷ xs) = elim (Bool-cases (le a x)) [
  | inl here ↦ rw here refl
  | inr later ↦
      rw (later, contains-insert_by le v a xs) (or_swap (info_eq v x) (info_eq v a) (contains v xs))
]

contains-sort_by :
    (le : ValidatorInfo → ValidatorInfo → Bool) (v : ValidatorInfo) (xs : List ValidatorInfo)
    → contains v (sort_by le xs) ≡ contains v xs
unfolding contains sort_by
contains-sort_by le v [] = refl
contains-sort_by le v (x ∷ xs) =
    rw (contains-insert_by le v x (sort_by le xs), contains-sort_by le v xs) refl

or_absorbed : (a b : Bool) → (a ≡ true → b ≡ true) → b ≡ (a || b)
or_absorbed true b h = h refl
or_absorbed false b h = refl

pub contains-to_set :
    (v : ValidatorInfo) (xs : List ValidatorInfo) → contains v (to_set xs) ≡ contains v xs
unfolding contains to_set
contains-to_set v [] = refl
contains-to_set v (x ∷ xs) = elim (Bool-cases (contains x xs)) [
  | inl again ↦
      rw (again, contains-to_set v xs)
        (or_absorbed (info_eq v x) (contains v xs) (λ same. contains_left v x xs same ∙ again))
  | inr new ↦ rw (new, contains-to_set v xs) refl
]

and_not_or : (a b c : Bool) → (a ≡ true → c ≡ true) → (b && not c) ≡ ((a || b) && not c)
and_not_or true b c h = rw (h refl) (ground arith)
and_not_or false b c h = refl

or_and_not : (a b c : Bool) → (a ≡ true → c ≡ false) → (a || (b && not c)) ≡ ((a || b) && not c)
or_and_not true b c h = rw (h refl) refl
or_and_not false b c h = refl

pub contains-difference :
    (v : ValidatorInfo) (xs ys : List ValidatorInfo)
    → contains v (difference xs ys) ≡ (contains v xs && not (contains v ys))
unfolding contains difference
contains-difference v [] ys = refl
contains-difference v (x ∷ xs) ys = elim (Bool-cases (contains x ys)) [
  | inl there ↦
      rw (there, contains-difference v xs ys)
        (and_not_or (info_eq v x) (contains v xs) (contains v ys)
          (λ same. contains_left v x ys same ∙ there))
  | inr absent ↦
      rw (absent, contains-difference v xs ys)
        (or_and_not (info_eq v x) (contains v xs) (contains v ys)
          (λ same. contains_left v x ys same ∙ absent))
]

-- The validators to add are those of the new set that are not in the old one.
pub contains-added :
    (old new : List ValidatorInfo) (v : ValidatorInfo)
    → contains v (compute_validator_diffs old new).0 ≡ (contains v new && not (contains v old))
unfolding compute_validator_diffs
contains-added old new v =
    rw
      (
        contains-sort_by info_leb v (difference (to_set new) (to_set old)),
        contains-difference v (to_set new) (to_set old),
        contains-to_set v new,
        contains-to_set v old,
      )
      refl

-- Whether `key` is in a list of keys.
abbrev pub has_key : Secp256k1Key → List Secp256k1Key → Bool
has_key key [] = false
has_key key (k ∷ ks) = key_eq key k || has_key key ks

-- Whether a validator of `vs` that `test` accepts has the key.
abbrev pub any_with_key : Secp256k1Key → (ValidatorInfo → Bool) → List ValidatorInfo → Bool
any_with_key key test [] = false
any_with_key key test (v ∷ vs) = (key_eq key v.validator_key && test v) || any_with_key key test vs

has_key-insert_by :
    (key k : Secp256k1Key) (ks : List Secp256k1Key)
    → has_key key (insert_by key_leb k ks) ≡ (key_eq key k || has_key key ks)
unfolding insert_by
has_key-insert_by key k [] = refl
has_key-insert_by key k (x ∷ xs) = elim (Bool-cases (key_leb k x)) [
  | inl here ↦ rw here refl
  | inr later ↦
      rw (later, has_key-insert_by key k xs)
        (or_swap (key_eq key x) (key_eq key k) (has_key key xs))
]

pub has_key-sort_by :
    (key : Secp256k1Key) (ks : List Secp256k1Key)
    → has_key key (sort_by key_leb ks) ≡ has_key key ks
unfolding sort_by
has_key-sort_by key [] = refl
has_key-sort_by key (k ∷ ks) =
    rw (has_key-insert_by key k (sort_by key_leb ks), has_key-sort_by key ks) refl

pub has_key-difference :
    (key : Secp256k1Key) (xs ys : List ValidatorInfo)
    → has_key key (map key_of (difference xs ys)) ≡ any_with_key key (λ v. not (contains v ys)) xs
unfolding difference
has_key-difference key [] ys = refl
has_key-difference key (x ∷ xs) ys = elim (Bool-cases (contains x ys)) [
  | inl there ↦ rw (there, has_key-difference key xs ys) (ground arith)
  | inr absent ↦ rw (absent, has_key-difference key xs ys) (ground arith)
]
