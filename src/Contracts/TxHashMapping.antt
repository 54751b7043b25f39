-- ===== src/Contracts/TxHashMapping.antt =====
-- code/solidity/src/TxHashMapping.sol: the contract that links the hashes of both chains. A method
-- returns the new storage or the error it reverts with. OpenZeppelin's Ownable is not modelled: a
-- message says whether `onlyOwner` lets it pass.
pub mod Tracking
pub mod Methods
pub mod Consistency
pub mod Histories
pub mod Links
pub mod Deposits
pub mod Written
use money_interoperability.Prelude.{
  ℕ, Bool, true, false, not, ◌&&◌, none, some, List, [], ◌∷◌, ◌++◌, ◌==◌,
}
use money_interoperability.World.{Address, Hash, Reply, ok, err}
use money_interoperability.Contracts.Mapping.{put, revert_if, ◌>>=◌, ◌>>◌}
use money_interoperability.Contracts.Pending.{Pending, nothing_pending, push, remove}

pub data Error : Type 0 where
  unauthorized invalid_hash invalid_address unset_hash already_set already_linked : Error
  incomplete_withdrawal reverse_already_linked ownable panicked : Error

pub data Event : Type 0 where
  relayer_updated : Address → Address → Event
  deposit_registered : Hash → Event
  deposit_hashes_linked : Hash → Hash → Event
  withdrawal_registered : Hash → Event
  withdrawal_hashes_linked : Hash → Hash → Event
  refund_hashes_linked : Hash → Hash → Event

pub record DepositEntry : Type 0 where
  pub bridge_and_mint_tx_hash : Hash
  pub exists : Bool

pub record WithdrawalEntry : Type 0 where
  pub bridge_to_tx_hash : Hash
  pub refund_tx_hash : Hash
  pub exists : Bool

-- The storage, and the events emitted so far.
pub record TxHashMapping : Type 0 where
  pub relayer : Address
  pub deposit_mapping : Hash → DepositEntry
  pub deposit_reverse_mapping : Hash → Hash
  pub incomplete_deposits : Pending
  pub withdrawal_mapping : Hash → WithdrawalEntry
  pub burn_and_bridge_from_bridge_to : Hash → Hash
  pub burn_and_bridge_from_refund : Hash → Hash
  pub incomplete_withdrawals : Pending
  pub incomplete_refunds : Pending
  pub events : List Event

-- `msg`, with the verdict of `onlyOwner` on its sender.
pub record Msg : Type 0 where
  pub sender : Address
  pub is_owner : Bool

-- The constructor; `refused` says whether the constructor of Ownable reverts.
unfoldable pub create : Bool → Address → Address → Reply Error TxHashMapping
create refused owner relayer = do
  revert_if refused ownable
  revert_if (owner == 0) invalid_address
  revert_if (relayer == 0) invalid_address
  ok (record {
    relayer = relayer;
    deposit_mapping = λ _. record { bridge_and_mint_tx_hash = 0; exists = false };
    deposit_reverse_mapping = λ _. 0;
    incomplete_deposits = nothing_pending;
    withdrawal_mapping = λ _. record { bridge_to_tx_hash = 0; refund_tx_hash = 0; exists = false };
    burn_and_bridge_from_bridge_to = λ _. 0;
    burn_and_bridge_from_refund = λ _. 0;
    incomplete_withdrawals = nothing_pending;
    incomplete_refunds = nothing_pending;
    events = relayer_updated 0 relayer ∷ [];
  })

unfoldable pub set_relayer : Msg → Address → TxHashMapping → Reply Error TxHashMapping
set_relayer msg new m = do
  revert_if (not msg.is_owner) ownable
  revert_if (new == 0) invalid_address
  ok (record m { relayer = new; events = m.events ++ relayer_updated m.relayer new ∷ [] })

abbrev pub only_relayer : Msg → TxHashMapping → Reply Error (Unit {0})
only_relayer msg m = revert_if (not (msg.sender == m.relayer)) unauthorized

abbrev pub non_zero_hash : Hash → Reply Error (Unit {0})
non_zero_hash h = revert_if (h == 0) invalid_hash

-- The removal from an array of incomplete hashes, whose panic reverts the call.
unfoldable pub removed : Hash → Pending → Reply Error Pending
removed h p = elim (remove h p) [ none ↦ err panicked | some q ↦ ok q ]

unfoldable pub register_deposit : Msg → Hash → TxHashMapping → Reply Error TxHashMapping
register_deposit msg h m = do
  only_relayer msg m
  non_zero_hash h
  revert_if (m.deposit_mapping h).exists already_set
  ok (record m {
    deposit_mapping = put m.deposit_mapping h (record (m.deposit_mapping h) { exists = true });
    incomplete_deposits = push h m.incomplete_deposits;
    events = m.events ++ deposit_registered h ∷ [];
  })

unfoldable pub register_withdrawal : Msg → Hash → TxHashMapping → Reply Error TxHashMapping
register_withdrawal msg h m = do
  only_relayer msg m
  non_zero_hash h
  revert_if (m.withdrawal_mapping h).exists already_set
  ok (record m {
    withdrawal_mapping =
        put m.withdrawal_mapping h (record (m.withdrawal_mapping h) { exists = true });
    incomplete_withdrawals = push h m.incomplete_withdrawals;
    incomplete_refunds = push h m.incomplete_refunds;
    events = m.events ++ withdrawal_registered h ∷ [];
  })

-- Whether `existingFrom` is another deposit.
abbrev pub taken : Hash → Hash → Bool
taken existing h = not (existing == 0) && not (existing == h)

unfoldable pub link_deposit_hashes : Msg → Hash → Hash → TxHashMapping → Reply Error TxHashMapping
link_deposit_hashes msg h minted m = do
  only_relayer msg m
  non_zero_hash h
  non_zero_hash minted
  revert_if (not (m.deposit_mapping h).exists) unset_hash
  revert_if (not ((m.deposit_mapping h).bridge_and_mint_tx_hash == 0)) already_linked
  revert_if (taken (m.deposit_reverse_mapping minted) h) reverse_already_linked
  rest ← removed h m.incomplete_deposits
  ok (record m {
    deposit_mapping =
        put m.deposit_mapping h (record (m.deposit_mapping h) { bridge_and_mint_tx_hash = minted });
    deposit_reverse_mapping = put m.deposit_reverse_mapping minted h;
    incomplete_deposits = rest;
    events = m.events ++ deposit_hashes_linked h minted ∷ [];
  })

unfoldable pub link_withdrawal_hashes :
    Msg → Hash → Hash → TxHashMapping → Reply Error TxHashMapping
link_withdrawal_hashes msg h bridged m = do
  only_relayer msg m
  non_zero_hash h
  non_zero_hash bridged
  revert_if (not (m.withdrawal_mapping h).exists) unset_hash
  revert_if (not ((m.withdrawal_mapping h).bridge_to_tx_hash == 0)) already_linked
  rest ← removed h m.incomplete_withdrawals
  ok (record m {
    withdrawal_mapping =
        put m.withdrawal_mapping h
          (record (m.withdrawal_mapping h) { bridge_to_tx_hash = bridged });
    burn_and_bridge_from_bridge_to = put m.burn_and_bridge_from_bridge_to bridged h;
    incomplete_withdrawals = rest;
    events = m.events ++ withdrawal_hashes_linked h bridged ∷ [];
  })

unfoldable pub link_refund_hashes : Msg → Hash → Hash → TxHashMapping → Reply Error TxHashMapping
link_refund_hashes msg h refunded m = do
  only_relayer msg m
  non_zero_hash h
  non_zero_hash refunded
  revert_if (not (m.withdrawal_mapping h).exists) unset_hash
  revert_if (not ((m.withdrawal_mapping h).refund_tx_hash == 0)) already_linked
  rest ← removed h m.incomplete_refunds
  ok (record m {
    withdrawal_mapping =
        put m.withdrawal_mapping h (record (m.withdrawal_mapping h) { refund_tx_hash = refunded });
    burn_and_bridge_from_refund = put m.burn_and_bridge_from_refund refunded h;
    incomplete_refunds = rest;
    events = m.events ++ refund_hashes_linked h refunded ∷ [];
  })
