-- ===== src/Examples/Recovery.antt =====
-- The recovery of one incomplete deposit, whose mint is in no checkpoint.
use money_interoperability.Prelude.{◌≡◌, refl, List, [], ◌∷◌, ◌++◌, none}
use money_interoperability.World.{WithdrawalHashes}
use money_interoperability.Action.{◌>>◌}
use money_interoperability.Action.Writes.{Write, writes}
use money_interoperability.Incoming.Recovery.{recover_incomplete_deposit_hash_mapping}
use money_interoperability.Incoming.Recovery.Deposits.{
  recover_incomplete_deposit_hash_mapping-writes,
}
use money_interoperability.Incoming.Recovery.Links.{Links}
use money_interoperability.Outgoing.Recovery.{link_refund, link_bridge_to, Found}
use money_interoperability.Outgoing.Recovery.Links.{link_refund-Relinked, Relinked}
use money_interoperability.Examples.{world, fresh}

recover_incomplete_deposit_hash_mapping-writes_example :
    (ws : List Write) × Links world (101 ∷ []) ws
    × (writes (recover_incomplete_deposit_hash_mapping world none fresh).1.history
        ≡ ws ++ writes fresh.history)
recover_incomplete_deposit_hash_mapping-writes_example =
    recover_incomplete_deposit_hash_mapping-writes world none (101 ∷ []) fresh refl

abbrev event : Found
event = record {
  bridge_to_tx_hash = 902;
  refund_amount = 5;
  om_token = 41;
  sidechain_nonce = 8;
  from = 31;
}

abbrev entry : WithdrawalHashes
entry = record { bridge_to = 0; refund = 0 }

link_refund-Relinked_example :
    (ws : List Write) × Relinked world event 800 entry ws
    × (writes
          ((link_bridge_to world 800 event entry >> link_refund world 0 8 800 event entry)
            fresh).1.history
        ≡ ws ++ writes fresh.history)
link_refund-Relinked_example = link_refund-Relinked world event 800 entry 0 8 fresh
