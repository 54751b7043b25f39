-- ===== src/Outgoing/Stream.antt =====
-- code/crates/relayer/src/outgoing/stream.rs: the transactions of 1Money, from the subscription and
-- from the checkpoints, given to the relay one by one.
pub mod Reads
pub mod Tallies
use money_interoperability.Prelude.{ℕ, Option, String, List, map}
use money_interoperability.World.{World, Hash, Transaction}
use money_interoperability.Action.{Action, some_or, ◌>>=◌, ◌>>◌, for_each}
use money_interoperability.Onemoney.Stream.{certified_transaction_stream, checkpoint_loop}
use money_interoperability.Onemoney.Types.{CertifiedTransaction}
use money_interoperability.Outgoing.Error.{Error, missing_checkpoint_number}
use money_interoperability.Outgoing.Relay.{
  process_checkpoint_info, process_burn_and_bridge_transactions,
}

abbrev pub tx_hash_of : Transaction → Hash
tx_hash_of tx = tx.hash

module _ (w : World) where
  -- The certified transactions are relayed with checkpoint 0. The decoding of a message is serde's.
  unfoldable pub relay_outgoing_events :
      (String → Option CertifiedTransaction) → ℕ → Action Error (Unit {0})
  relay_outgoing_events from_str messages =
      certified_transaction_stream w from_str
        (λ payload tx_hash. process_burn_and_bridge_transactions w payload tx_hash 0) messages

  unfoldable pub relay_transaction : Transaction → Action Error (Unit {0})
  relay_transaction tx = do
    checkpoint_number ← some_or missing_checkpoint_number tx.checkpoint_number
    process_burn_and_bridge_transactions w tx.payload tx.hash checkpoint_number

  -- What is done with the transactions of one checkpoint: its tally first, then each transaction.
  unfoldable pub relay_checkpoint : ℕ → List Transaction → Action Error (Unit {0})
  relay_checkpoint current_checkpoint_id transactions = do
    process_checkpoint_info w current_checkpoint_id (map tx_hash_of transactions)
    for_each transactions relay_transaction

  unfoldable pub relay_outgoing_events_from_checkpoints : ℕ → ℕ → Action Error (Unit {0})
  relay_outgoing_events_from_checkpoints ticks start_checkpoint =
      checkpoint_loop w ticks relay_checkpoint start_checkpoint
