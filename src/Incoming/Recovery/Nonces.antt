-- ===== src/Incoming/Recovery/Nonces.antt =====
-- The recovery and the clearing of incoming events keep the discipline of the shared nonce.
use money_interoperability.Prelude.{ℕ, zero, suc, refl, none, some, Option, List, leb, ltb}
use money_interoperability.World.{
  World, OnemoneyError, Reply, ok, err, ViewReply, value, view_reverted, view_failed, LogData,
  Transaction, CheckpointTransactions, get_checkpoint_by_number, get_transaction_receipt,
}
use money_interoperability.Action.Nonces.{
  ask_bind-Disciplined, bind-Disciplined, if-Disciplined, Disciplined, discipline,
}
use money_interoperability.Submit.Discipline.{send_mapping-Disciplined}
use money_interoperability.Config.{Config}
use money_interoperability.Incoming.Nonces.{process_event-Disciplined}
use money_interoperability.Incoming.Recovery.{
  link_found_deposit, look_in_checkpoint, recover_from_receipt, recover_from_reply, view, middle,
  sc_inbound_nonce_at, search_block, resume_block, get_latest_incomplete_block_number, clear_window,
  interval_clearing, clearing_loop, relay_incoming_events_from_blocks, recover_in_checkpoint,
  recover_deposit, recover_incomplete_deposit_hash_mapping,
}

ruleset rules = (discipline, send_mapping-Disciplined)

view-Disciplined : {base : ℕ} (r : ViewReply ℕ) → Disciplined base (view r)
view-Disciplined (value n) = search rules
view-Disciplined (view_reverted e) = search rules
view-Disciplined (view_failed e) = search rules

module _ {base : ℕ} (w : World) where
  sc_inbound_nonce_at-Disciplined : (block : ℕ) → Disciplined base (sc_inbound_nonce_at w block)
  unfolding sc_inbound_nonce_at
  sc_inbound_nonce_at-Disciplined block = search (rules, view-Disciplined)

  search_block-Disciplined :
      (fuel om low high : ℕ) → Disciplined base (search_block w fuel om low high)
  unfolding search_block
  search_block-Disciplined zero om low high = search rules
  search_block-Disciplined (suc fuel) om low high =
      if-Disciplined (ltb low high) _ _
        (bind-Disciplined _ _ (sc_inbound_nonce_at-Disciplined (middle low high)) (λ mid.
          if-Disciplined (leb mid om) _ _ (search_block-Disciplined fuel om (middle low high) high)
            (search_block-Disciplined fuel om low _)))
        (search rules)

  resume_block-Disciplined :
      (fuel latest om sc : ℕ) → Disciplined base (resume_block w fuel latest om sc)
  unfolding resume_block
  resume_block-Disciplined fuel latest om sc = search (rules, search_block-Disciplined)

  pub get_latest_incomplete_block_number-Disciplined :
      (fuel : ℕ) (config : Config)
      → Disciplined base (get_latest_incomplete_block_number w fuel config)
  unfolding get_latest_incomplete_block_number
  get_latest_incomplete_block_number-Disciplined fuel config =
      search (rules, sc_inbound_nonce_at-Disciplined, resume_block-Disciplined) depth 15

  clear_window-Disciplined :
      (rounds : ℕ) (config : Config) (start end : ℕ) (u : Unit {0})
      → Disciplined base (clear_window w rounds config start end u)
  unfolding clear_window
  clear_window-Disciplined rounds config start end u =
      search (rules, process_event-Disciplined) depth 10

  interval_clearing-Disciplined :
      (fuel rounds : ℕ) (config : Config) (from to : ℕ)
      → Disciplined base (interval_clearing w fuel rounds config from to)
  unfolding interval_clearing
  interval_clearing-Disciplined fuel rounds config from to =
      search (rules, clear_window-Disciplined)

  clearing_loop-Disciplined :
      (passes fuel rounds : ℕ) (config : Config) (from to : ℕ)
      → Disciplined base (clearing_loop w passes fuel rounds config from to)
  unfolding clearing_loop
  clearing_loop-Disciplined zero fuel rounds config from to = search rules
  clearing_loop-Disciplined (suc passes) fuel rounds config from to =
      bind-Disciplined _ _ (interval_clearing-Disciplined fuel rounds config from to)
        (λ _. search (rules, clearing_loop-Disciplined passes fuel rounds config to) depth 8)

  pub relay_incoming_events_from_blocks-Disciplined :
      (passes fuel rounds : ℕ) (config : Config) (from : ℕ)
      → Disciplined base (relay_incoming_events_from_blocks w passes fuel rounds config from)
  unfolding relay_incoming_events_from_blocks
  relay_incoming_events_from_blocks-Disciplined passes fuel rounds config from =
      search (rules, clearing_loop-Disciplined)

  link_found_deposit-Disciplined :
      (hash : ℕ) (found : Option Transaction) → Disciplined base (link_found_deposit w hash found)
  link_found_deposit-Disciplined hash none = search rules
  link_found_deposit-Disciplined hash (some tx) = search rules

  look_in_checkpoint-Disciplined :
      (hash nonce to : ℕ) (r : Reply OnemoneyError CheckpointTransactions)
      → Disciplined base (look_in_checkpoint w hash nonce to r)
  look_in_checkpoint-Disciplined hash nonce to (err e) = search rules
  look_in_checkpoint-Disciplined hash nonce to (ok txs) = link_found_deposit-Disciplined hash _

  recover_in_checkpoint-Disciplined :
      (hash nonce to i : ℕ) (u : Unit {0})
      → Disciplined base (recover_in_checkpoint w hash nonce to i u)
  unfolding recover_in_checkpoint
  recover_in_checkpoint-Disciplined hash nonce to i u =
      ask_bind-Disciplined w (get_checkpoint_by_number i) _ (λ _. refl)
        (look_in_checkpoint-Disciplined hash nonce to)

  recover_from_receipt-Disciplined :
      (start last hash : ℕ) (receipt : Option (List LogData))
      → Disciplined base (recover_from_receipt w start last hash receipt)
  recover_from_receipt-Disciplined start last hash receipt =
      search (rules, recover_in_checkpoint-Disciplined)

  recover_from_reply-Disciplined :
      (start last hash : ℕ) (r : Reply ℕ (Option (List LogData)))
      → Disciplined base (recover_from_reply w start last hash r)
  recover_from_reply-Disciplined start last hash (err e) = search rules
  recover_from_reply-Disciplined start last hash (ok receipt) =
      recover_from_receipt-Disciplined start last hash receipt

  recover_deposit-Disciplined :
      (start last hash : ℕ) → Disciplined base (recover_deposit w start last hash)
  unfolding recover_deposit
  recover_deposit-Disciplined start last hash =
      ask_bind-Disciplined w (get_transaction_receipt hash) _ (λ _. refl)
        (recover_from_reply-Disciplined start last hash)

  pub recover_incomplete_deposit_hash_mapping-Disciplined :
      (start : Option ℕ) → Disciplined base (recover_incomplete_deposit_hash_mapping w start)
  unfolding recover_incomplete_deposit_hash_mapping
  recover_incomplete_deposit_hash_mapping-Disciplined start =
      search (rules, recover_deposit-Disciplined) depth 15
