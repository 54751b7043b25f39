-- ===== src/Outgoing/Recovery.antt =====
-- code/crates/relayer/src/outgoing/recovery.rs: where to resume after a restart, and the completion
-- of withdrawal hash mappings.
pub mod Nonces
pub mod Links
use text.Mathlib.Text.{◌==◌ as str_eq}
use money_interoperability.Prelude.{
  ℕ, ◌+◌, ◌-◌, Bool, false, ◌&&◌, ◌||◌, not, Option, none, some, List, [], ◌∷◌, find, ◌==◌,
  if◌then◌else◌,
}
use money_interoperability.World.{
  World, Address, Hash, RpcLog, Transaction, TxPayload, token_transfer, CheckpointTransactions,
  full, hashes, OmInteropSent, OmReceipt, WithdrawalHashes, OnemoneyError, Reply, ok, err,
  get_block_number, get_logs, client_custom, get_latest_completed_checkpoint,
  incomplete_withdrawals, get_withdrawal, get_checkpoint_number, get_checkpoint_by_number,
  get_transaction_receipt_by_hash, link_withdrawal_hashes, link_refund_hashes,
}
use money_interoperability.Action.{
  Action, pure, raise, or_raise, ◌>>=◌, ◌>>◌, ask, Flow, next, stop, for_each, for_range,
  scan_blocks,
}
use money_interoperability.Submit.{send_mapping}
use money_interoperability.Config.{Config}
use money_interoperability.Outgoing.Error.{
  Error, onemoney, contract_call, contract_rpc_transport, generic,
}

-- The five variables that the search for the `OmInteropSent` log assigns together.
pub record Found : Type 0 where
  pub bridge_to_tx_hash : Hash
  pub refund_amount : ℕ
  pub om_token : Address
  pub sidechain_nonce : ℕ
  pub from : Address

abbrev pub or_zero : Option ℕ → ℕ
or_zero none = 0
or_zero (some n) = n

module _ (w : World) where
  unfoldable pub get_earliest_incomplete_checkpoint_number : Action Error ℕ
  get_earliest_incomplete_checkpoint_number = do
    res ← ask w get_latest_completed_checkpoint
    or_raise contract_call res

  abbrev pub found_in_log : Hash → Address → OmInteropSent → Option Hash → Option Found
  found_in_log tx_hash sender parsed none = none
  found_in_log tx_hash sender parsed (some transaction_hash) =
      if not (parsed.source_hash == tx_hash) || not (parsed.from == sender)
      then none
      else some (record {
        bridge_to_tx_hash = transaction_hash;
        refund_amount = parsed.refund_amount;
        om_token = parsed.om_token;
        sidechain_nonce = parsed.nonce;
        from = parsed.from;
      })

  -- The first log that is the `OmInteropSent` of the transaction and carries a transaction hash.
  unfoldable pub find_sent : Hash → Address → List RpcLog → Option Found
  find_sent tx_hash sender [] = none
  find_sent tx_hash sender (log ∷ logs) =
      let rest = find_sent tx_hash sender logs in
      elim (w.decode_sent log.inner) [
        | none ↦ rest
        | some parsed ↦ elim (found_in_log tx_hash sender parsed log.transaction_hash) [
          | some found ↦ some found
          | none ↦ rest
        ]
      ]

  abbrev pub flow_of : Option Found → Flow (Unit {0}) Found
  flow_of none = next tt
  flow_of (some found) = stop found

  unfoldable pub search_window :
      Config → Hash → Address → ℕ → ℕ → Unit {0} → Action Error (Flow (Unit {0}) Found)
  search_window config tx_hash sender from_block to _ = do
    reply ← ask w (
        get_logs (record {
          contract = config.interop_contract_address;
          topic1 = some sender;
          topic3 = some tx_hash;
          from_block = from_block;
          to_block = to;
        }))
    logs ← or_raise contract_rpc_transport reply
    pure (flow_of (find_sent tx_hash sender logs))

  abbrev pub found_or_fail : Flow (Unit {0}) Found → Action Error Found
  found_or_fail (next _) = raise generic
  found_or_fail (stop found) = pure found

  unfoldable pub link_bridge_to : Hash → Found → WithdrawalHashes → Action Error (Unit {0})
  link_bridge_to tx_hash found withdrawal_hashes =
      if withdrawal_hashes.bridge_to == 0
      then send_mapping w contract_call (link_withdrawal_hashes tx_hash found.bridge_to_tx_hash)
      else pure tt

  abbrev pub token_is : Address → Option Address → Bool
  token_is om_token none = false
  token_is om_token (some token) = token == om_token

  abbrev pub matches_refund_payload : Found → TxPayload → Bool
  matches_refund_payload found (token_transfer amount recipient token) =
      str_eq amount (w.u256_to_string found.refund_amount)
      && token_is found.om_token token
      && (recipient == found.from)
  matches_refund_payload found _ = false

  -- Whether a transaction of a checkpoint is the refund of the withdrawal.
  abbrev pub matches_refund : Found → Transaction → Bool
  matches_refund found tx =
      (tx.nonce == found.sidechain_nonce) && matches_refund_payload found tx.payload

  unfoldable pub find_refund : Found → CheckpointTransactions → Option Transaction
  find_refund found (full txs) = find (matches_refund found) txs
  find_refund found (hashes _) = none

  abbrev pub link_found_refund :
      Hash → Option Transaction → Action Error (Flow (Unit {0}) (Unit {0}))
  link_found_refund tx_hash none = pure (next tt)
  link_found_refund tx_hash (some tx) = do
    send_mapping w contract_call (link_refund_hashes tx_hash tx.hash)
    pure (stop tt)

  abbrev pub look_in_checkpoint :
      Hash
      → Found
      → Reply OnemoneyError CheckpointTransactions
      → Action Error (Flow (Unit {0}) (Unit {0}))
  look_in_checkpoint tx_hash found (err _) = pure (next tt)
  look_in_checkpoint tx_hash found (ok txs) = link_found_refund tx_hash (find_refund found txs)

  unfoldable pub recover_in_checkpoint :
      Hash → Found → ℕ → Unit {0} → Action Error (Flow (Unit {0}) (Unit {0}))
  recover_in_checkpoint tx_hash found i _ = do
    checkpoint ← ask w (get_checkpoint_by_number i)
    look_in_checkpoint tx_hash found checkpoint

  unfoldable pub link_refund : ℕ → ℕ → Hash → Found → WithdrawalHashes → Action Error (Unit {0})
  link_refund start last tx_hash found withdrawal_hashes =
      if withdrawal_hashes.refund == 0
      then (for_range (last + 1 - start) start tt (recover_in_checkpoint tx_hash found) >> pure tt)
      else pure tt

  unfoldable pub recover_from_receipt :
      ℕ → Config → ℕ → ℕ → ℕ → Hash → WithdrawalHashes → OmReceipt → Action Error (Unit {0})
  recover_from_receipt fuel config start last start_block tx_hash withdrawal_hashes receipt = do
    block ← ask w get_block_number
    latest ← or_raise contract_rpc_transport block
    searched ← scan_blocks fuel start_block latest tt (search_window config tx_hash receipt.from)
    found ← found_or_fail searched
    link_bridge_to tx_hash found withdrawal_hashes
    link_refund start last tx_hash found withdrawal_hashes

  abbrev pub recover_from_reply :
      ℕ
      → Config
      → ℕ
      → ℕ
      → ℕ
      → Hash
      → WithdrawalHashes
      → Reply OnemoneyError OmReceipt
      → Action Error (Unit {0})
  recover_from_reply fuel config start last start_block tx_hash withdrawal_hashes (err _) = pure tt
  recover_from_reply fuel config start last start_block tx_hash withdrawal_hashes (ok receipt) =
      recover_from_receipt fuel config start last start_block tx_hash withdrawal_hashes receipt

  -- The body of the loop over incomplete withdrawals.
  unfoldable pub recover_withdrawal : ℕ → Config → ℕ → ℕ → ℕ → Hash → Action Error (Unit {0})
  recover_withdrawal fuel config start last start_block tx_hash = do
    entry ← ask w (get_withdrawal tx_hash)
    withdrawal_hashes ← or_raise contract_call entry
    receipt ← ask w (get_transaction_receipt_by_hash tx_hash)
    recover_from_reply fuel config start last start_block tx_hash withdrawal_hashes receipt

  unfoldable pub recover_incomplete_withdrawals_hash_mapping :
      ℕ → Config → Option ℕ → Option ℕ → Action Error (Unit {0})
  recover_incomplete_withdrawals_hash_mapping fuel config start_checkpoint start_block = do
    incomplete ← ask w incomplete_withdrawals
    incomplete_hashes ← or_raise contract_call incomplete
    client ← ask w client_custom
    or_raise onemoney client
    number ← ask w get_checkpoint_number
    last_checkpoint ← or_raise onemoney number
    for_each incomplete_hashes (
        recover_withdrawal fuel config (or_zero start_checkpoint) last_checkpoint
          (or_zero start_block))
