-- ===== src/Sidechain/Diff/Applied.antt =====
-- What the update by the difference of two validator sets makes of the old set.
use money_interoperability.Prelude.{
  ◌≡◌, refl, sym, ap, ◌∙◌, Bool, true, false, ◌&&◌, ◌||◌, not, List, [], ◌∷◌, ◌++◌, map, keep,
  Bool-cases, inl, inr, arith,
}
use money_interoperability.World.{Secp256k1Key, ValidatorInfo}
use money_interoperability.Sidechain.Diff.{
  key_eq, info_eq, contains, to_set, difference, compute_validator_diffs, key_of,
}
use money_interoperability.Sidechain.Diff.Members.{
  contains_left, contains-to_set, contains-added, has_key, any_with_key, has_key-sort_by,
  has_key-difference,
}

info_eq_key :
    (key : Secp256k1Key) (a b : ValidatorInfo)
    → info_eq a b ≡ true
    → key_eq key a.validator_key ≡ key_eq key b.validator_key
info_eq_key key a b e = ground arith

-- A test that does not tell equal validators apart.
abbrev pub Respects : (ValidatorInfo → Bool) → Type 0
Respects test = (a b : ValidatorInfo) → info_eq a b ≡ true → test a ≡ test b

pub any_found :
    (key : Secp256k1Key) (test : ValidatorInfo → Bool) (x : ValidatorInfo) (xs : List ValidatorInfo)
    → Respects test
    → contains x xs ≡ true
    → (key_eq key x.validator_key && test x) ≡ true
    → any_with_key key test xs ≡ true
unfolding contains
any_found key test x [] r there t = absurd (ground arith)
any_found key test x (y ∷ ys) r there t = elim (Bool-cases (info_eq x y)) [
  | inl same ↦ rw (← info_eq_key key x y same, ← r x y same, t) refl
  | inr other ↦
      let later : contains x ys ≡ true = ap (λ b. b || contains x ys) (sym other) ∙ there in
      rw (any_found key test x ys r later t) (ground arith)
]

or_absorbed : (a b : Bool) → (a ≡ true → b ≡ true) → b ≡ (a || b)
or_absorbed true b h = h refl
or_absorbed false b h = refl

any_with_key-to_set :
    (key : Secp256k1Key) (test : ValidatorInfo → Bool) (xs : List ValidatorInfo)
    → Respects test
    → any_with_key key test (to_set xs) ≡ any_with_key key test xs
unfolding to_set
any_with_key-to_set key test [] r = refl
any_with_key-to_set key test (x ∷ xs) r = elim (Bool-cases (contains x xs)) [
  | inl again ↦
      rw (again, any_with_key-to_set key test xs r)
        (or_absorbed (key_eq key x.validator_key && test x) (any_with_key key test xs)
          (any_found key test x xs r again))
  | inr new ↦ rw (new, any_with_key-to_set key test xs r) refl
]

any_with_key_ext :
    (key : Secp256k1Key) (f g : ValidatorInfo → Bool) (xs : List ValidatorInfo)
    → ((v : ValidatorInfo) → f v ≡ g v)
    → any_with_key key f xs ≡ any_with_key key g xs
any_with_key_ext key f g [] e = refl
any_with_key_ext key f g (x ∷ xs) e = rw (e x, any_with_key_ext key f g xs e) refl

-- The keys to remove are those of the validators of the old set that are not in the new one.
pub has_key-removed :
    (old new : List ValidatorInfo) (key : Secp256k1Key)
    → has_key key (compute_validator_diffs old new).1
      ≡ any_with_key key (λ v. not (contains v new)) old
unfolding compute_validator_diffs
has_key-removed old new key =
    has_key-sort_by key (map key_of (difference (to_set old) (to_set new)))
    ∙ has_key-difference key (to_set old) (to_set new)
    ∙ any_with_key_ext key _ _ (to_set old) (λ v. ap not (contains-to_set v new))
    ∙ any_with_key-to_set key _ old (λ a b same. ap not (contains_left a b new same))

-- No two validators of `vs` have the same key.
abbrev pub IsKeyed : List ValidatorInfo → Type 0
IsKeyed vs =
    (a b : ValidatorInfo)
    → contains a vs ≡ true
    → contains b vs ≡ true
    → key_eq a.validator_key b.validator_key ≡ true
    → info_eq a b ≡ true

-- The set after the update: the validators whose keys are removed leave, and the new ones join.
abbrev pub updated :
    List ValidatorInfo → List ValidatorInfo × List Secp256k1Key → List ValidatorInfo
updated old (added, removed) = keep (λ v. not (has_key v.validator_key removed)) old ++ added

contains-append :
    (v : ValidatorInfo) (xs ys : List ValidatorInfo)
    → contains v (xs ++ ys) ≡ (contains v xs || contains v ys)
unfolding contains
contains-append v [] ys = refl
contains-append v (x ∷ xs) ys = rw (contains-append v xs ys) (ground arith)

contains-keep :
    (v : ValidatorInfo) (test : ValidatorInfo → Bool) (xs : List ValidatorInfo)
    → Respects test
    → contains v (keep test xs) ≡ (contains v xs && test v)
unfolding contains
contains-keep v test [] r = refl
contains-keep v test (x ∷ xs) r = elim (Bool-cases (test x)) [
  | inl passes ↦
      rw (passes, contains-keep v test xs r)
        (kept (info_eq v x) (contains v xs) (test v) (λ same. r v x same ∙ passes))
  | inr fails ↦
      rw (fails, contains-keep v test xs r)
        (dropped (info_eq v x) (contains v xs) (test v) (λ same. r v x same ∙ fails))
]
  where
    kept : (a b t : Bool) → (a ≡ true → t ≡ true) → (a || (b && t)) ≡ ((a || b) && t)
    kept true b t h = rw (h refl) refl
    kept false b t h = refl

    dropped : (a b t : Bool) → (a ≡ true → t ≡ false) → (b && t) ≡ ((a || b) && t)
    dropped true b t h = rw (h refl) (ground arith)
    dropped false b t h = refl

has_key_left :
    (a b : Secp256k1Key) (ks : List Secp256k1Key) → key_eq a b ≡ true → has_key a ks ≡ has_key b ks
has_key_left a b [] e = refl
has_key_left a b (k ∷ ks) e =
    let same : key_eq a k ≡ key_eq b k = ground arith in rw (same, has_key_left a b ks e) refl

info_eq→key_eq :
    (a b : ValidatorInfo) → info_eq a b ≡ true → key_eq a.validator_key b.validator_key ≡ true
info_eq→key_eq a b e = ground arith

pub info_eq_refl : (v : ValidatorInfo) → info_eq v v ≡ true
info_eq_refl v = ground arith

pub key_eq_refl : (k : Secp256k1Key) → key_eq k k ≡ true
key_eq_refl k = ground arith

-- In a set with distinct keys, whether a validator with the key of `v` passes is whether `v` does.
any_with_own_key :
    (v : ValidatorInfo) (test : ValidatorInfo → Bool) (xs : List ValidatorInfo)
    → Respects test
    → ((x : ValidatorInfo)
        → contains x xs ≡ true
        → key_eq v.validator_key x.validator_key ≡ true
        → info_eq v x ≡ true)
    → any_with_key v.validator_key test xs ≡ (contains v xs && test v)
unfolding contains
any_with_own_key v test [] r keyed = refl
any_with_own_key v test (x ∷ xs) r keyed =
    let later : any_with_key v.validator_key test xs ≡ (contains v xs && test v) =
      any_with_own_key v test xs r (λ y there. keyed y (rw there (or_true (info_eq y x)))) in
    ap (λ b. (key_eq v.validator_key x.validator_key && test x) || b) later
    ∙ own_step (key_eq v.validator_key x.validator_key) (info_eq v x) (test x) (contains v xs)
        (test v) (same_test _ _ (keyed x (rw (info_eq_refl x) refl)) (info_eq→key_eq v x))
        (λ equal. sym (r v x equal))
  where
    or_true : (b : Bool) → (b || true) ≡ true
    or_true b = ground arith

    same_test : (k e : Bool) → (k ≡ true → e ≡ true) → (e ≡ true → k ≡ true) → k ≡ e
    same_test true e h g = sym (h refl)
    same_test false true h g = g refl
    same_test false false h g = refl

    own_step :
        (k e t c u : Bool) → k ≡ e → (e ≡ true → t ≡ u) → ((k && t) || (c && u)) ≡ ((e || c) && u)
    own_step k true t c u same h = rw (same, h refl) (ground arith)
    own_step k false t c u same h = rw same refl

-- If no two validators of the old list share a key, then dropping the removed keys from it and adding
-- the added validators gives a list with the members of the new one.
pub contains-updated :
    (old new : List ValidatorInfo) (v : ValidatorInfo)
    → IsKeyed old
    → contains v (updated old (compute_validator_diffs old new)) ≡ contains v new
contains-updated old new v keyed =
    contains-append v _ (compute_validator_diffs old new).0
    ∙ rw
        (
          contains-keep v _ old kept_alike,
          has_key-removed old new v.validator_key,
          contains-added old new v,
        )
        (elim (Bool-cases (contains v old)) [
          | inl there ↦
              rw (any_with_own_key v _ old new_alike (λ x at. keyed v x there at), there)
                (both (contains v new))
          | inr absent ↦ rw absent (and_true (contains v new))
        ])
  where
    kept_alike : Respects (λ x. not (has_key x.validator_key (compute_validator_diffs old new).1))
    kept_alike a b same = ap not (
        has_key_left a.validator_key b.validator_key (compute_validator_diffs old new).1
          (info_eq→key_eq a b same))

    new_alike : Respects (λ x. not (contains x new))
    new_alike a b same = ap not (contains_left a b new same)

    both : (n : Bool) → (not (not n) || (n && false)) ≡ n
    both n = ground arith

    and_true : (n : Bool) → (n && true) ≡ n
    and_true n = ground arith
