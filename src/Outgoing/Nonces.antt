-- ===== src/Outgoing/Nonces.antt =====
-- The outgoing relays keep the discipline of the shared nonce, on every path.
use money_interoperability.Prelude.{ℕ, Option, none, some, String, List}
use money_interoperability.World.{
  World, Hash, SuccessInfo, OmReceipt, BridgeTo, TxPayload, token_burn_and_bridge, Transaction,
}
use money_interoperability.Action.Nonces.{Disciplined, discipline}
use money_interoperability.Submit.Discipline.{send_mapping-Disciplined, send_required-Disciplined}
use money_interoperability.Onemoney.Stream.Nonces.{
  checkpoint_loop-Disciplined, certified_transaction_stream-Disciplined,
}
use money_interoperability.Onemoney.Types.{CertifiedTransaction}
use money_interoperability.Outgoing.Relay.{
  process_checkpoint_info, info_of_success, bbnonce_of_receipt, bridge_to_args, bridge_and_link,
  process_burn_and_bridge_transactions,
}
use money_interoperability.Outgoing.Stream.{
  relay_transaction, relay_checkpoint, relay_outgoing_events,
  relay_outgoing_events_from_checkpoints,
}

ruleset rules = (discipline, send_mapping-Disciplined, send_required-Disciplined)

module _ {base : ℕ} (w : World) where
  process_checkpoint_info-Disciplined :
      (n : ℕ) (txs : List Hash) → Disciplined base (process_checkpoint_info w n txs)
  unfolding process_checkpoint_info
  process_checkpoint_info-Disciplined n txs = search rules

  info_of_success-Disciplined : (o : Option SuccessInfo) → Disciplined base (info_of_success w o)
  info_of_success-Disciplined none = search rules
  info_of_success-Disciplined (some info) = search rules

  bbnonce_of_receipt-Disciplined : (r : OmReceipt) → Disciplined base (bbnonce_of_receipt w r)
  unfolding bbnonce_of_receipt
  bbnonce_of_receipt-Disciplined r = search (rules, info_of_success-Disciplined)

  bridge_to_args-Disciplined :
      (sender bbnonce : ℕ) (destination value : String) (chain : ℕ) (fee : String)
      (token checkpoint hash : ℕ)
      → Disciplined base
          (bridge_to_args w sender bbnonce destination value chain fee token checkpoint hash)
  unfolding bridge_to_args
  bridge_to_args-Disciplined sender bbnonce destination value chain fee token checkpoint hash =
      search rules depth 10

  bridge_and_link-Disciplined :
      (hash : Hash) (args : BridgeTo) → Disciplined base (bridge_and_link w hash args)
  unfolding bridge_and_link
  bridge_and_link-Disciplined hash args = search rules

  pub process_burn_and_bridge_transactions-Disciplined :
      (payload : TxPayload) (hash checkpoint : ℕ)
      → Disciplined base (process_burn_and_bridge_transactions w payload hash checkpoint)
  unfolding process_burn_and_bridge_transactions
  process_burn_and_bridge_transactions-Disciplined (token_burn_and_bridge v s c d f m t) hash
        checkpoint =
      search
        (
          rules, bbnonce_of_receipt-Disciplined, bridge_to_args-Disciplined,
          bridge_and_link-Disciplined,
        )
        depth 20
  process_burn_and_bridge_transactions-Disciplined _ hash checkpoint = search rules

  relay_transaction-Disciplined : (tx : Transaction) → Disciplined base (relay_transaction w tx)
  unfolding relay_transaction
  relay_transaction-Disciplined tx =
      search (rules, process_burn_and_bridge_transactions-Disciplined)

  relay_checkpoint-Disciplined :
      (n : ℕ) (txs : List Transaction) → Disciplined base (relay_checkpoint w n txs)
  unfolding relay_checkpoint
  relay_checkpoint-Disciplined n txs =
      search (rules, process_checkpoint_info-Disciplined, relay_transaction-Disciplined)

  pub relay_outgoing_events-Disciplined :
      (from_str : String → Option CertifiedTransaction) (messages : ℕ)
      → Disciplined base (relay_outgoing_events w from_str messages)
  unfolding relay_outgoing_events
  relay_outgoing_events-Disciplined from_str messages =
      certified_transaction_stream-Disciplined w _ _
        (λ payload hash. process_burn_and_bridge_transactions-Disciplined payload hash 0) messages

  pub relay_outgoing_events_from_checkpoints-Disciplined :
      (ticks start : ℕ) → Disciplined base (relay_outgoing_events_from_checkpoints w ticks start)
  unfolding relay_outgoing_events_from_checkpoints
  relay_outgoing_events_from_checkpoints-Disciplined ticks start =
      checkpoint_loop-Disciplined w _ relay_checkpoint-Disciplined ticks start
