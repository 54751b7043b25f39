-- ===== src/Examples/Validators.antt =====
-- An update of a validator set: one validator leaves, one changes its power, one joins.
use money_interoperability.Prelude.{
  drop, take, length, insert_by, sort_by, ℕ, ◌≡◌, refl, true, ◌&&◌, List, [], ◌∷◌, ◌↔◌, arith,
}
use money_interoperability.World.{Secp256k1Key, ValidatorInfo}
use money_interoperability.Sidechain.Diff.{contains, compute_validator_diffs, to_set, difference}
use money_interoperability.Sidechain.Diff.Applied.{IsKeyed, updated, contains-updated}
use money_interoperability.Sidechain.Diff.Skipped.{SameMembers, compute_validator_diffs-SameMembers}
use money_interoperability.Sidechain.Keys.{from_be_bytes, encoded_key}
use money_interoperability.Sidechain.Keys.Encoding.{encoded_key-decoded}
use money_interoperability.Sidechain.Update.{is_empty}

abbrev validator : ℕ → ℕ → ValidatorInfo
validator x power = record { validator_key = record { x = x; y = 0 }; power = power }

abbrev old : List ValidatorInfo
old = validator 1 10 ∷ validator 2 10 ∷ validator 3 10 ∷ []

abbrev new : List ValidatorInfo
new = validator 4 10 ∷ validator 2 20 ∷ validator 3 10 ∷ validator 3 10 ∷ []

diffs : compute_validator_diffs old new ≡ (
  validator 2 20 ∷ validator 4 10 ∷ [],
  (validator 1 10).validator_key ∷ (validator 2 10).validator_key ∷ [],
)
unfolding compute_validator_diffs to_set difference contains sort_by insert_by
diffs = refl

old-IsKeyed : IsKeyed old
unfolding contains
old-IsKeyed a b p q same = ground arith

contains-updated_example :
    contains (validator 2 20) (updated old (compute_validator_diffs old new))
    ≡ contains (validator 2 20) new
contains-updated_example = contains-updated old new (validator 2 20) old-IsKeyed

compute_validator_diffs-SameMembers_example :
    ((is_empty (compute_validator_diffs old new).0 && is_empty (compute_validator_diffs old new).1)
      ≡ true)
    ↔ SameMembers old new
compute_validator_diffs-SameMembers_example = compute_validator_diffs-SameMembers old new

abbrev key : Secp256k1Key
key = record { x = 258; y = 7 }

encoded_key-decoded_example :
    (length (encoded_key key) ≡ 65)
    × (from_be_bytes (take 32 (drop 1 (encoded_key key))) ≡ 258)
    × (from_be_bytes (drop 32 (drop 1 (encoded_key key))) ≡ 7)
encoded_key-decoded_example = encoded_key-decoded key (omega arith) (omega arith)
