-- ===== src/Sidechain/Update.antt =====
-- `process_new_validator_set` of code/crates/relayer/src/sidechain/mod.rs.
use money_interoperability.Prelude.{
  Option, none, some, List, [], ◌∷◌, if◌then◌else◌, Bool, true, false, ◌&&◌,
}
use money_interoperability.World.{
  World, Secp256k1Key, ValidatorInfo, ValidatorRegistration, get_validators, update_validator_set,
}
use money_interoperability.Action.{Action, pure, unreachable, or_raise, ◌>>=◌, ◌>>◌, ask}
use money_interoperability.Submit.{send_required}
use money_interoperability.Sidechain.Diff.{compute_validator_diffs}
use money_interoperability.Sidechain.Error.{
  Error, process_validator_set, pending_transaction_receipt, validator_manager_contract_reverted,
}
use money_interoperability.Sidechain.Keys.{public_key_bytes, address}

abbrev pub is_empty {ℓ} : {A : Type ℓ} → List A → Bool
is_empty [] = true
is_empty (_ ∷ _) = false

-- The values of a list of computations that may panic.
abbrev pub all_some : {A B : Type 0} → (A → Option B) → List A → Option (List B)
all_some f [] = some []
all_some f (x ∷ xs) = elim (f x) [
  | none ↦ none
  | some y ↦ elim (all_some f xs) [ none ↦ none | some ys ↦ some (y ∷ ys) ]
]

abbrev pub or_panic : {E A : Type 0} → Option A → Action E A
or_panic none = unreachable
or_panic (some a) = pure a

module _ (w : World) where
  unfoldable pub registration : ValidatorInfo → Option ValidatorRegistration
  registration v = elim (public_key_bytes w v.validator_key) [
    | none ↦ none
    | some bytes ↦ some (record { public_key = bytes; power = v.power })
  ]

  -- The update of the contract with both lists, and the query of the new set that is logged.
  unfoldable pub send_update : List ValidatorInfo → List Secp256k1Key → Action Error (Unit {0})
  send_update add_validators remove_validator_keys = do
    registrations ← or_panic (all_some registration add_validators)
    addresses ← or_panic (all_some (address w) remove_validator_keys)
    send_required w process_validator_set validator_manager_contract_reverted
        pending_transaction_receipt (update_validator_set registrations addresses)
    new_validators ← ask w get_validators
    or_raise process_validator_set new_validators
    pure tt

  unfoldable pub process_new_validator_set : List ValidatorInfo → Action Error (Unit {0})
  process_new_validator_set new_validators = do
    reply ← ask w get_validators
    old_validators ← or_raise process_validator_set reply
    let diffs = compute_validator_diffs old_validators new_validators
    if is_empty diffs.0 && is_empty diffs.1 then pure tt else send_update diffs.0 diffs.1
