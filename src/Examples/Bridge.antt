-- ===== src/Examples/Bridge.antt =====
-- Deposits and withdrawals relayed between the example chains.
use money_interoperability.Prelude.{arith, Option, refl, [], ◌∷◌, ◌++◌, List, ◌≡◌}
use money_interoperability.World.{
  OmInteropReceived, OmInteropLog, link_refund_hashes, Hash, om_interop_sent, om_interop_received,
  register_deposit, ok, pending, link_deposit_hashes,
}
use money_interoperability.Action.{done, Exit, fetch_sub, fetch_add, ask, ◌>>=◌}
use money_interoperability.Action.Writes.{paid, minted, sent, Write, writes}
use money_interoperability.Submit.{settle_mapping, send_mapping}
use money_interoperability.Incoming.Error.{Error}
use money_interoperability.Incoming.Events.{dispatch, process_event}
use money_interoperability.Incoming.Events.Due.{
  due_refund_handled, due_deposit_handled, passed_deposit_skipped, Serves, IsLogged, context,
}
use money_interoperability.Incoming.Handlers.{
  refund_payload, mint_payload, unless_exists, handle_om_interop_received, account_nonce,
  should_process_nonce, new_context,
}
use money_interoperability.Incoming.Handlers.Delivery.{Delivered, Received}
use money_interoperability.Outgoing.Relay.{process_burn_and_bridge_transactions}
use money_interoperability.Outgoing.Relay.Bridging.{process_burn_and_bridge-writes, Bridged}
use money_interoperability.Examples.{
  refund, refund_log, deposit, world, config, fresh, deposit_log, burn,
}

-- The deposit is registered, minted and linked.
deposit_minted :
    writes (process_event world 3 config deposit_log fresh).1.history
    ≡ sent (link_deposit_hashes 900 600) (pending 500)
      ∷ minted
          (mint_payload world
            (record { relayer_address = 21; private_key_hex = "0xaa"; chain_id = 1 })
            deposit
            900)
          (ok 600)
      ∷ sent (register_deposit 900) (pending 500)
      ∷ []
unfolding process_event dispatch new_context should_process_nonce account_nonce
    handle_om_interop_received unless_exists send_mapping settle_mapping mint_payload ◌>>=◌ ask
    fetch_add fetch_sub
deposit_minted = refl

process_burn_and_bridge-writes_example :
    (ws : List Write) × Bridged world burn 800 4 ws
    × (writes (process_burn_and_bridge_transactions world burn 800 4 fresh).1.history
        ≡ ws ++ writes fresh.history)
process_burn_and_bridge-writes_example = process_burn_and_bridge-writes world burn 800 4 fresh

pub world-Serves : Serves world config 1 7
world-Serves = record { client = λ h. refl; chain_id = λ h. refl; account = λ h. refl }

pub deposit_log-IsLogged : IsLogged deposit_log (om_interop_received deposit) 900
deposit_log-IsLogged = record {
  block = 29;
  index = 0;
  at_block = refl;
  at_index = refl;
  in_transaction = refl;
  kept = refl;
  is_event = refl;
}

due_deposit_handled_example :
    (exit : Exit Error (Option Hash)) × (ws : List Write) × Received world
      (context config 1)
      deposit
      900
      exit
      ws
    × (writes (process_event world 3 config deposit_log fresh).1.history
        ≡ ws ++ writes fresh.history)
due_deposit_handled_example =
    due_deposit_handled world 3 config 1 deposit_log 900 fresh deposit world-Serves
      deposit_log-IsLogged

refund_log-IsLogged : IsLogged refund_log (om_interop_sent refund) 901
refund_log-IsLogged = record {
  block = 30;
  index = 2;
  at_block = refl;
  at_index = refl;
  in_transaction = refl;
  kept = refl;
  is_event = refl;
}

due_refund_handled_example :
    (exit : Exit Error (Option Hash)) × (ws : List Write) × Delivered
      (paid (refund_payload world (context config 1) refund))
      (link_refund_hashes 800)
      exit
      ws
    × (writes (process_event world 3 config refund_log fresh).1.history
        ≡ ws ++ writes fresh.history)
due_refund_handled_example =
    due_refund_handled world 3 config 1 refund_log 901 fresh refund world-Serves refund_log-IsLogged

-- A deposit that 1Money has taken.
abbrev passed : OmInteropReceived
passed = record { nonce = 3; to = 31; amount = 5; om_token = 41; src_chain_id = 2 }

abbrev passed_log : OmInteropLog
passed_log = record deposit_log { inner = om_interop_received passed }

passed_log-IsLogged : IsLogged passed_log (om_interop_received passed) 900
passed_log-IsLogged = record {
  block = 29;
  index = 0;
  at_block = refl;
  at_index = refl;
  in_transaction = refl;
  kept = refl;
  is_event = refl;
}

passed_deposit_skipped_example :
    let (exit, s') = process_event world 3 config passed_log fresh in
    (exit ≡ done tt) × (writes s'.history ≡ writes fresh.history)
passed_deposit_skipped_example =
    passed_deposit_skipped world 3 config 1 passed_log 900 fresh passed 7 world-Serves
      passed_log-IsLogged (omega arith)
