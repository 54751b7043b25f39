-- ===== src/Outgoing/Relay.antt =====
-- code/crates/relayer/src/outgoing/relay.rs: the tally of a checkpoint, and the call of `bridgeTo`
-- for one burn-and-bridge transaction.
pub mod Bridging
pub mod Replay
use money_interoperability.Prelude.{
  ℕ, Option, none, some, String, List, [], ltb, if◌then◌else◌, wrapping_sub, ◌^◌, ◌-◌, leb,
}
use money_interoperability.World.{
  World, Address, Hash, TxPayload, token_burn_and_bridge, OmReceipt, SuccessInfo, BridgeTo,
  register_withdrawal, link_withdrawal_hashes, update_checkpoint_info, bridge_to, client_custom,
  get_transaction_receipt_by_hash, get_latest_processed_nonce,
}
use money_interoperability.Action.{Action, pure, raise, or_raise, some_or, ◌>>=◌, ◌>>◌, ask}
use money_interoperability.Submit.{send_mapping, send_required}
use money_interoperability.Outgoing.Error.{
  Error, onemoney, create_address, parse_int, convert_int, contract_call, pending_transaction,
  contract_reverted, generic,
}

-- `u32::try_from`
abbrev pub try_into_u32 : ℕ → Option ℕ
try_into_u32 n = if leb n (2 ^ 32 - 1) then some n else none

module _ (w : World) where
  unfoldable pub process_checkpoint_info : ℕ → List Hash → Action Error (Unit {0})
  process_checkpoint_info current_checkpoint_id transaction_hashes = do
    send_required w contract_call contract_reverted pending_transaction
        (update_checkpoint_info current_checkpoint_id transaction_hashes)
    pure tt

  abbrev pub info_of_success : Option SuccessInfo → Action Error ℕ
  info_of_success none = raise generic
  info_of_success (some info) = some_or generic info.bridge_info >>= λ bridge. pure bridge.bbnonce

  -- The nonce of the account at the burn: the receipt holds its next nonce.
  unfoldable pub bbnonce_of_receipt : OmReceipt → Action Error ℕ
  bbnonce_of_receipt receipt = do
    next ← info_of_success receipt.success_info
    pure (wrapping_sub next 1)

  -- The arguments of `bridgeTo`, in the order in which they are parsed.
  unfoldable pub bridge_to_args :
      (sender : Address) (bbnonce : ℕ) (destination_address value : String)
      (destination_chain_id : ℕ) (escrow_fee : String) (token : Address) (checkpoint_number : ℕ)
      (tx_hash : Hash)
      → Action Error BridgeTo
  bridge_to_args sender bbnonce destination_address value destination_chain_id escrow_fee token
        checkpoint_number tx_hash =
      do
        to ← some_or create_address (w.parse_address destination_address)
        amount ← some_or parse_int (w.parse_u256 value)
        dst_chain_id ← some_or convert_int (try_into_u32 destination_chain_id)
        fee ← some_or parse_int (w.parse_u256 escrow_fee)
        pure (record {
          from = sender;
          bbnonce = bbnonce;
          to = to;
          amount = amount;
          dst_chain_id = dst_chain_id;
          escrow_fee = fee;
          om_token = token;
          checkpoint_id = checkpoint_number;
          bridge_data = [];
          source_hash = tx_hash;
        })

  -- The call of `bridgeTo` and the link of its hash.
  unfoldable pub bridge_and_link : Hash → BridgeTo → Action Error (Unit {0})
  bridge_and_link tx_hash args = do
    bridge_to_hash ←
        send_required w contract_call contract_reverted pending_transaction (bridge_to args)
    send_mapping w contract_call (link_withdrawal_hashes tx_hash bridge_to_hash)

  unfoldable pub process_burn_and_bridge_transactions :
      TxPayload → Hash → ℕ → Action Error (Unit {0})
  process_burn_and_bridge_transactions
        (token_burn_and_bridge value sender destination_chain_id destination_address escrow_fee
          bridge_metadata token)
        tx_hash checkpoint_number =
      do
        client ← ask w client_custom
        or_raise onemoney client
        send_mapping w contract_call (register_withdrawal tx_hash)
        receipt ← ask w (get_transaction_receipt_by_hash tx_hash)
        burn_and_bridge_receipt ← or_raise onemoney receipt
        bbnonce ← bbnonce_of_receipt burn_and_bridge_receipt
        processed ← ask w (get_latest_processed_nonce sender)
        latest_bb ← or_raise contract_call processed
        if ltb bbnonce latest_bb then pure tt else (do
          args ←
              bridge_to_args sender bbnonce destination_address value destination_chain_id
                escrow_fee token checkpoint_number tx_hash
          bridge_and_link tx_hash args)
  process_burn_and_bridge_transactions _ tx_hash checkpoint_number = do
    client ← ask w client_custom
    or_raise onemoney client
    raise generic
