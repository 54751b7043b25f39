-- ===== src/Sidechain/Diff/Skipped.antt =====
-- When the update of the validator set is skipped.
use money_interoperability.Prelude.{
  ◌≡◌, refl, sym, ap, ◌∙◌, Bool, true, false, ◌&&◌, ◌||◌, not, List, [], ◌∷◌, arith, ◌↔◌,
}
use money_interoperability.World.{Secp256k1Key, ValidatorInfo}
use money_interoperability.Sidechain.Diff.{key_eq, info_eq, contains, compute_validator_diffs}
use money_interoperability.Sidechain.Diff.Applied.{
  has_key-removed, any_found, Respects, info_eq_refl, key_eq_refl,
}
use money_interoperability.Sidechain.Diff.Members.{
  contains_left, contains-added, has_key, any_with_key,
}
use money_interoperability.Sidechain.Update.{is_empty}

-- The two sets have the same members.
abbrev pub SameMembers : List ValidatorInfo → List ValidatorInfo → Type 0
SameMembers xs ys = (v : ValidatorInfo) → contains v xs ≡ contains v ys

none-is_empty :
    (xs : List ValidatorInfo) → ((v : ValidatorInfo) → contains v xs ≡ false) → is_empty xs ≡ true
unfolding contains
none-is_empty [] h = refl
none-is_empty (x ∷ xs) h = absurd (clash (info_eq x x) (contains x xs) (info_eq_refl x) (h x))
  where
    clash : (a b : Bool) → a ≡ true → (a || b) ≡ false → ⊥
    clash a b e f = ground arith

none_keys-is_empty :
    (ks : List Secp256k1Key) → ((k : Secp256k1Key) → has_key k ks ≡ false) → is_empty ks ≡ true
none_keys-is_empty [] h = refl
none_keys-is_empty (k ∷ ks) h = absurd (clash (key_eq k k) (has_key k ks) (key_eq_refl k) (h k))
  where
    clash : (a b : Bool) → a ≡ true → (a || b) ≡ false → ⊥
    clash a b e f = ground arith

is_empty-contains :
    (v : ValidatorInfo) (xs : List ValidatorInfo) → is_empty xs ≡ true → contains v xs ≡ false
unfolding contains
is_empty-contains v [] h = refl
is_empty-contains v (x ∷ xs) h = absurd (ground arith)

is_empty-has_key :
    (k : Secp256k1Key) (ks : List Secp256k1Key) → is_empty ks ≡ true → has_key k ks ≡ false
is_empty-has_key k [] h = refl
is_empty-has_key k (x ∷ xs) h = absurd (ground arith)

any_none :
    (key : Secp256k1Key) (test : ValidatorInfo → Bool) (xs : List ValidatorInfo)
    → ((x : ValidatorInfo) → contains x xs ≡ true → test x ≡ false)
    → any_with_key key test xs ≡ false
unfolding contains
any_none key test [] h = refl
any_none key test (x ∷ xs) h =
    rw
      (
        h x (rw (info_eq_refl x) refl),
        any_none key test xs (λ y there. h y (rw there (or_true (info_eq y x)))),
      )
      (and_false (key_eq key x.validator_key))
  where
    or_true : (b : Bool) → (b || true) ≡ true
    or_true b = ground arith

    and_false : (b : Bool) → ((b && false) || false) ≡ false
    and_false b = ground arith

module _ (old new : List ValidatorInfo) where
  abbrev diff_is_empty : Bool
  diff_is_empty =
      is_empty (compute_validator_diffs old new).0 && is_empty (compute_validator_diffs old new).1

  skipped-SameMembers : diff_is_empty ≡ true → SameMembers old new
  skipped-SameMembers h v =
      agree (contains v old) (contains v new)
        (sym (contains-added old new v) ∙ is_empty-contains v _ (left_true _ _ h))
        (λ there absent. false_true (
          sym (
            sym (has_key-removed old new v.validator_key)
            ∙ is_empty-has_key v.validator_key _ (right_true _ _ h))
          ∙ any_found v.validator_key _ v old new_alike there
              (rw (key_eq_refl v.validator_key, absent) refl)))
    where
      left_true : (a b : Bool) → (a && b) ≡ true → a ≡ true
      left_true a b e = ground arith

      right_true : (a b : Bool) → (a && b) ≡ true → b ≡ true
      right_true a b e = ground arith

      false_true : false ≡ true → ⊥
      false_true e = ground arith

      new_alike : Respects (λ x. not (contains x new))
      new_alike a b same = ap not (contains_left a b new same)

      agree : (o n : Bool) → (n && not o) ≡ false → (o ≡ true → n ≡ false → ⊥) → o ≡ n
      agree true true e h = refl
      agree true false e h = absurd (h refl refl)
      agree false true e h = sym e
      agree false false e h = refl

  SameMembers-skipped : SameMembers old new → diff_is_empty ≡ true
  SameMembers-skipped same =
      rw
        (
          none-is_empty (compute_validator_diffs old new).0 nothing_added,
          none_keys-is_empty (compute_validator_diffs old new).1 nothing_removed,
        )
        refl
    where
      nothing_added : (v : ValidatorInfo) → contains v (compute_validator_diffs old new).0 ≡ false
      nothing_added v = rw (contains-added old new v, same v) (and_not (contains v new))
        where
          and_not : (b : Bool) → (b && not b) ≡ false
          and_not b = ground arith

      nothing_removed : (k : Secp256k1Key) → has_key k (compute_validator_diffs old new).1 ≡ false
      nothing_removed k =
          has_key-removed old new k
          ∙ any_none k (λ x. not (contains x new)) old (λ x there. ap not (sym (same x) ∙ there))

  -- The difference of two validator lists is empty, so that no update is sent, exactly if the lists
  -- have the same members.
  pub compute_validator_diffs-SameMembers : (diff_is_empty ≡ true) ↔ SameMembers old new
  compute_validator_diffs-SameMembers = (skipped-SameMembers, SameMembers-skipped)
