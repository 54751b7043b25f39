-- ===== src/Examples/Burns.antt =====
-- A burn that the contract has not processed, and the same burn when it has.
use money_interoperability.Prelude.{◌≡◌, refl, arith, none, [], ◌∷◌}
use money_interoperability.World.{
  World, Call, Response, History, BridgeTo, ok, pending, get_latest_processed_nonce,
  register_withdrawal, bridge_to, link_withdrawal_hashes,
}
use money_interoperability.Action.{done}
use money_interoperability.Action.Writes.{writes, sent}
use money_interoperability.Outgoing.Relay.{process_burn_and_bridge_transactions}
use money_interoperability.Outgoing.Relay.Replay.{
  Accepts, process_burn_and_bridge-bridged, process_burn_and_bridge-replayed,
}
use money_interoperability.Examples.{world, crates, respond, fresh, burn}

world-Accepts : Accepts world 31 800 3 1 (λ tx. 500)
world-Accepts = record {
  client = λ h. refl;
  accepted = λ h tx n. refl;
  mined = λ h x. refl;
  burnt = λ h. refl;
  latest = λ h. refl;
}

abbrev call : BridgeTo
call = record {
  from = 31;
  bbnonce = 2;
  to = 77;
  amount = 5;
  dst_chain_id = 2;
  escrow_fee = 5;
  om_token = 41;
  checkpoint_id = 4;
  bridge_data = [];
  source_hash = 800;
}

process_burn_and_bridge-bridged_example :
    let (exit, s') = process_burn_and_bridge_transactions world burn 800 4 fresh in
    (exit ≡ done tt)
    × (writes s'.history
        ≡ sent (link_withdrawal_hashes 800 500) (pending 500)
          ∷ sent (bridge_to call) (pending 500)
          ∷ sent (register_withdrawal 800) (pending 500)
          ∷ [])
process_burn_and_bridge-bridged_example =
    process_burn_and_bridge-bridged world "5" 31 2 "0x4d" "5" none 41 800 4 3 1 (λ tx. 500)
      world-Accepts fresh 77 5 2 5 (omega arith) refl refl refl refl

abbrev later_respond : History → (c : Call) → Response c
later_respond h (get_latest_processed_nonce _) = ok 3
later_respond h c = respond h c

abbrev later_world : World
later_world = record { crates = crates; respond = later_respond }

later_world-Accepts : Accepts later_world 31 800 3 3 (λ tx. 500)
later_world-Accepts = record {
  client = λ h. refl;
  accepted = λ h tx n. refl;
  mined = λ h x. refl;
  burnt = λ h. refl;
  latest = λ h. refl;
}

process_burn_and_bridge-replayed_example :
    let (exit, s') = process_burn_and_bridge_transactions later_world burn 800 4 fresh in
    (exit ≡ done tt) × (writes s'.history ≡ sent (register_withdrawal 800) (pending 500) ∷ [])
process_burn_and_bridge-replayed_example =
    process_burn_and_bridge-replayed later_world "5" 31 2 "0x4d" "5" none 41 800 4 3 3 (λ tx. 500)
      later_world-Accepts fresh (omega arith)
