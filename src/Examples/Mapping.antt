-- ===== src/Examples/Mapping.antt =====
-- A mapping contract in which a deposit is linked, another is open, and a withdrawal lacks its refund.
use money_interoperability.Prelude.{
  ℕ, ◌≡◌, ◌≢◌, refl, true, false, ◌&&◌, List, [], ◌∷◌, ◌==◌, if◌then◌else◌, some, arith,
}
use money_interoperability.World.{Hash, ok}
use money_interoperability.Contracts.Mapping.{get_elem?, revert_if}
use money_interoperability.Contracts.Outcome.{Ends}
use money_interoperability.Contracts.Pending.{nothing_pending, push, remove, fill_gap}
use money_interoperability.Contracts.Pending.Places.{StandsOnce, HoldsIff}
use money_interoperability.Contracts.TxHashMapping
use money_interoperability.Contracts.TxHashMapping.{
  TxHashMapping, Msg, create, relayer_updated, removed,
}
use money_interoperability.Contracts.TxHashMapping.Deposits.{
  linked, status, MayLink, link_deposit_hashes-Status,
}
use money_interoperability.Contracts.TxHashMapping.Histories.{
  history-incomplete, refund_only_incomplete, create-IsConsistent, history-IsConsistent,
}
use money_interoperability.Contracts.TxHashMapping.Links.{Extends, history-Extends}
use money_interoperability.Contracts.TxHashMapping.Methods.{
  Method, register_deposit, register_withdrawal, link_deposit_hashes, link_withdrawal_hashes,
  link_refund_hashes, execute, history,
}

abbrev pub new_mapping : TxHashMapping
new_mapping = record {
  relayer = 2;
  deposit_mapping = λ _. record { bridge_and_mint_tx_hash = 0; exists = false };
  deposit_reverse_mapping = λ _. 0;
  incomplete_deposits = nothing_pending;
  withdrawal_mapping = λ _. record { bridge_to_tx_hash = 0; refund_tx_hash = 0; exists = false };
  burn_and_bridge_from_bridge_to = λ _. 0;
  burn_and_bridge_from_refund = λ _. 0;
  incomplete_withdrawals = nothing_pending;
  incomplete_refunds = nothing_pending;
  events = relayer_updated 0 2 ∷ [];
}

pub created : create false 1 2 ≡ ok new_mapping
unfolding create revert_if
created = refl

abbrev pub by_relayer : Msg
by_relayer = record { sender = 2; is_owner = false }

abbrev calls : List (Msg × Method)
calls =
    (by_relayer, register_deposit 7)
    ∷ (by_relayer, register_deposit 8)
    ∷ (by_relayer, link_deposit_hashes 7 70)
    ∷ (by_relayer, register_withdrawal 9)
    ∷ (by_relayer, link_withdrawal_hashes 9 90)
    ∷ []

abbrev mapping : TxHashMapping
mapping = history calls new_mapping

listed_after :
    (mapping.incomplete_deposits.hashes ≡ 8 ∷ [])
    × (mapping.incomplete_withdrawals.hashes ≡ [])
    × (mapping.incomplete_refunds.hashes ≡ 9 ∷ [])
unfolding history execute TxHashMapping.register_deposit TxHashMapping.register_withdrawal
    TxHashMapping.link_deposit_hashes TxHashMapping.link_withdrawal_hashes removed revert_if push
    remove fill_gap
listed_after = (refl, refl, refl)

history-incomplete_example :
    HoldsIff mapping.incomplete_deposits.hashes 8 (
      (mapping.deposit_mapping 8).exists
      && (mapping.deposit_mapping 8).bridge_and_mint_tx_hash == 0)
    × HoldsIff mapping.incomplete_withdrawals.hashes 8 (
        (mapping.withdrawal_mapping 8).exists
        && (mapping.withdrawal_mapping 8).bridge_to_tx_hash == 0)
    × HoldsIff mapping.incomplete_refunds.hashes 8 (
        (mapping.withdrawal_mapping 8).exists && (mapping.withdrawal_mapping 8).refund_tx_hash == 0)
history-incomplete_example = history-incomplete false 1 2 new_mapping created calls 8

-- The withdrawal as it is stored.
withdrawal :
    ((mapping.withdrawal_mapping 9).exists ≡ true)
    × ((mapping.withdrawal_mapping 9).bridge_to_tx_hash ≡ 90)
    × ((mapping.withdrawal_mapping 9).refund_tx_hash ≡ 0)
unfolding history execute TxHashMapping.register_deposit TxHashMapping.register_withdrawal
    TxHashMapping.link_deposit_hashes TxHashMapping.link_withdrawal_hashes removed revert_if push
    remove fill_gap
withdrawal = (refl, refl, refl)

refund_only_incomplete_example :
    ((i : ℕ) → get_elem? mapping.incomplete_withdrawals.hashes i ≢ some 9)
    × StandsOnce mapping.incomplete_refunds.hashes 9
refund_only_incomplete_example =
    refund_only_incomplete false 1 2 new_mapping created calls 9 withdrawal.0
      (omega (arith, withdrawal.1)) withdrawal.2

abbrev later : List (Msg × Method)
later = (by_relayer, link_deposit_hashes 7 71) ∷ (by_relayer, link_refund_hashes 9 91) ∷ []

history-Extends_example : Extends mapping (history later mapping)
history-Extends_example = history-Extends later mapping

link_deposit_hashes-Status_example :
    Ends
      (λ m'.
        MayLink by_relayer 8 80 mapping
        × ((j : Hash) → status m' j ≡ (if 8 == j then linked 80 else status mapping j)))
      (λ _. ¬ MayLink by_relayer 8 80 mapping)
      (TxHashMapping.link_deposit_hashes by_relayer 8 80 mapping)
link_deposit_hashes-Status_example =
    link_deposit_hashes-Status by_relayer mapping
      (history-IsConsistent calls (create-IsConsistent false 1 2 new_mapping created)) 8 80
