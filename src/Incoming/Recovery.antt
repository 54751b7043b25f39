-- ===== src/Incoming/Recovery.antt =====
-- code/crates/relayer/src/incoming/recovery.rs: where to resume after a restart, the repeated
-- clearing of the logged events, and the completion of deposit hash mappings.
pub mod Nonces
pub mod Receipts
pub mod Links
pub mod Deposits
pub mod Search
pub mod Clearing
use money_interoperability.Prelude.{
  ℕ, zero, suc, ◌+◌, ◌-◌, ◌/◌, Bool, false, ◌&&◌, Option, none, some, List, [], ◌∷◌, find, ltb, leb,
  ◌==◌, if◌then◌else◌, wrapping_add, wrapping_sub,
}
use money_interoperability.World.{
  World, Address, Hash, LogData, Transaction, TxPayload, token_bridge_and_mint,
  CheckpointTransactions, full, hashes, ViewReply, value, view_reverted, view_failed, Reply, ok,
  err, get_block_number, get_logs, get_transaction_receipt, client_custom, get_account_nonce,
  get_latest_inbound_nonce, incomplete_deposits, get_checkpoint_number, get_checkpoint_by_number,
  link_deposit_hashes, sleep, OmInteropReceived, OnemoneyError,
}
use money_interoperability.Action.{
  Action, pure, raise, still_waiting, or_raise, some_or, ◌>>=◌, ◌>>◌, ask, Flow, next, stop,
  for_each, for_range, scan_blocks,
}
use money_interoperability.Submit.{send_mapping}
use money_interoperability.Config.{Config}
use money_interoperability.Interop.Event.{block_range, decode_all, sort_logs}
use money_interoperability.Incoming.Error.{
  Error, event_stream, onemoney, contract, rpc_transport, contract_reverted, generic,
}
use money_interoperability.Incoming.Events.{process_event}

-- `(low + high).div_ceil(2)`
abbrev pub middle : ℕ → ℕ → ℕ
middle low high = (wrapping_add low high + 1) / 2

-- The reply of a view call, a decoded revert told apart.
abbrev pub view : ViewReply ℕ → Action Error ℕ
view (value n) = pure n
view (view_reverted e) = raise (contract_reverted e)
view (view_failed e) = raise (contract e)

module _ (w : World) where
  -- `getLatestInboundNonce` at a block.
  unfoldable pub sc_inbound_nonce_at : ℕ → Action Error ℕ
  sc_inbound_nonce_at block = do res ← ask w (get_latest_inbound_nonce block); view res

  -- The binary search, for at most so many halvings.
  unfoldable pub search_block : ℕ → ℕ → ℕ → ℕ → Action Error ℕ
  search_block zero om_nonce low high = still_waiting
  search_block (suc fuel) om_nonce low high =
      let mid = middle low high in
      let rest = sc_inbound_nonce_at mid >>= λ nonce_mid.
      if leb nonce_mid om_nonce
      then search_block fuel om_nonce mid high
      else search_block fuel om_nonce low (wrapping_sub mid 1) in
      if ltb low high then rest else pure low

  -- The cases that are decided without a search.
  unfoldable pub resume_block : ℕ → ℕ → ℕ → ℕ → Action Error ℕ
  resume_block fuel latest om_nonce sc_nonce =
      if ltb sc_nonce om_nonce
      then raise generic
      else if om_nonce == 0
      then pure 0
      else if om_nonce == sc_nonce
      then pure latest
      else search_block fuel om_nonce 0 latest

  unfoldable pub get_latest_incomplete_block_number : ℕ → Config → Action Error ℕ
  get_latest_incomplete_block_number fuel config = do
    block ← ask w get_block_number
    latest ← or_raise rpc_transport block
    client ← ask w client_custom
    or_raise onemoney client
    account ← ask w (get_account_nonce config.relayer_private_key.address)
    om_nonce ← or_raise onemoney account
    sc_nonce ← sc_inbound_nonce_at latest
    resume_block fuel latest om_nonce sc_nonce

  -- The body of `interval_clearing` on the blocks from `start` to `end`.
  unfoldable pub clear_window :
      ℕ → Config → ℕ → ℕ → Unit {0} → Action Error (Flow (Unit {0}) (Unit {0}))
  clear_window rounds config start end _ = do
    reply ← ask w (get_logs (block_range config.interop_contract_address start end))
    historical ← or_raise rpc_transport reply
    decoded ← or_raise event_stream (decode_all w historical)
    for_each (sort_logs decoded) (process_event w rounds config)
    pure (next tt)

  unfoldable pub interval_clearing : ℕ → ℕ → Config → ℕ → ℕ → Action Error (Unit {0})
  interval_clearing fuel rounds config from_block to_block = do
    scan_blocks fuel from_block to_block tt (clear_window rounds config)
    pure tt

  -- The loop of `relay_incoming_events_from_blocks`, for so many passes: it has no other end but an
  -- error.
  unfoldable pub clearing_loop : ℕ → ℕ → ℕ → Config → ℕ → ℕ → Action Error (Unit {0})
  clearing_loop zero fuel rounds config from_block to_block = still_waiting
  clearing_loop (suc passes) fuel rounds config from_block to_block =
      interval_clearing fuel rounds config from_block to_block >>= λ _. ask w sleep >>= λ _.
      ask w get_block_number >>= λ latest. or_raise rpc_transport latest >>= λ next_to.
      clearing_loop passes fuel rounds config to_block next_to

  unfoldable pub relay_incoming_events_from_blocks :
      ℕ → ℕ → ℕ → Config → ℕ → Action Error (Unit {0})
  relay_incoming_events_from_blocks passes fuel rounds config from_block = do
    latest ← ask w get_block_number
    to_block ← or_raise rpc_transport latest
    clearing_loop passes fuel rounds config from_block to_block

  -- The first log of a receipt that decodes as `OmInteropReceived`.
  unfoldable pub first_received : List LogData → Option OmInteropReceived
  first_received [] = none
  first_received (log ∷ logs) =
      let rest = first_received logs in
      elim (w.decode_received log) [ some event ↦ some event | none ↦ rest ]

  abbrev pub matches_deposit_payload : Address → TxPayload → Bool
  matches_deposit_payload to (token_bridge_and_mint recipient _ _) = recipient == to
  matches_deposit_payload to _ = false

  -- Whether a transaction of a checkpoint is the mint of a deposit.
  abbrev pub matches_deposit : ℕ → Address → Transaction → Bool
  matches_deposit sidechain_nonce to tx =
      (tx.nonce == sidechain_nonce) && matches_deposit_payload to tx.payload

  unfoldable pub find_deposit : ℕ → Address → CheckpointTransactions → Option Transaction
  find_deposit sidechain_nonce to (full txs) = find (matches_deposit sidechain_nonce to) txs
  find_deposit sidechain_nonce to (hashes _) = none

  abbrev pub link_found_deposit :
      Hash → Option Transaction → Action Error (Flow (Unit {0}) (Unit {0}))
  link_found_deposit hash none = pure (next tt)
  link_found_deposit hash (some tx) = do
    send_mapping w contract (link_deposit_hashes hash tx.hash)
    pure (stop tt)

  abbrev pub look_in_checkpoint :
      Hash
      → ℕ
      → Address
      → Reply OnemoneyError CheckpointTransactions
      → Action Error (Flow (Unit {0}) (Unit {0}))
  look_in_checkpoint hash sidechain_nonce to (err _) = pure (next tt)
  look_in_checkpoint hash sidechain_nonce to (ok txs) =
      link_found_deposit hash (find_deposit sidechain_nonce to txs)

  -- The body of the loop over checkpoints: a checkpoint that cannot be fetched is passed over.
  unfoldable pub recover_in_checkpoint :
      Hash → ℕ → Address → ℕ → Unit {0} → Action Error (Flow (Unit {0}) (Unit {0}))
  recover_in_checkpoint hash sidechain_nonce to i _ = do
    checkpoint ← ask w (get_checkpoint_by_number i)
    look_in_checkpoint hash sidechain_nonce to checkpoint

  abbrev pub recover_from_receipt : ℕ → ℕ → Hash → Option (List LogData) → Action Error (Unit {0})
  recover_from_receipt start last hash receipt = do
    logs ← some_or generic receipt
    event ← some_or generic (first_received logs)
    for_range (last + 1 - start) start tt (recover_in_checkpoint hash event.nonce event.to)
    pure tt

  abbrev pub recover_from_reply :
      ℕ → ℕ → Hash → Reply ℕ (Option (List LogData)) → Action Error (Unit {0})
  recover_from_reply start last hash (err _) = pure tt
  recover_from_reply start last hash (ok receipt) = recover_from_receipt start last hash receipt

  -- The body of the loop over incomplete deposits: a receipt that cannot be queried is passed over,
  -- a missing one is an error.
  unfoldable pub recover_deposit : ℕ → ℕ → Hash → Action Error (Unit {0})
  recover_deposit start last hash = do
    receipt ← ask w (get_transaction_receipt hash)
    recover_from_reply start last hash receipt

  abbrev pub or_zero : Option ℕ → ℕ
  or_zero none = 0
  or_zero (some n) = n

  unfoldable pub recover_incomplete_deposit_hash_mapping : Option ℕ → Action Error (Unit {0})
  recover_incomplete_deposit_hash_mapping start_checkpoint = do
    incomplete ← ask w incomplete_deposits
    incomplete_hashes ← or_raise contract incomplete
    client ← ask w client_custom
    or_raise onemoney client
    let start = or_zero start_checkpoint
    number ← ask w get_checkpoint_number
    last_checkpoint ← or_raise onemoney number
    if ltb last_checkpoint start
        then pure tt
        else for_each incomplete_hashes (recover_deposit start last_checkpoint)
