-- ===== src/Examples/Linked.antt =====
-- The example's deposit, relayed to a new mapping contract.
use money_interoperability.Prelude.{◌≡◌, refl, false, List, ◌++◌, arith}
use money_interoperability.Action.{done}
use money_interoperability.Action.Writes.{Write, writes}
use money_interoperability.Incoming.Events.{process_event}
use money_interoperability.Incoming.Events.Linked.{Mints, due_deposit_linked}
use money_interoperability.Contracts.Pending.{listed}
use money_interoperability.Contracts.TxHashMapping.Deposits.{status, linked, MayRegister}
use money_interoperability.Contracts.TxHashMapping.Histories.{create-IsConsistent}
use money_interoperability.Contracts.TxHashMapping.Written.{written}
use money_interoperability.Examples.{world, config, deposit, deposit_log, fresh}
use money_interoperability.Examples.Bridge.{world-Serves, deposit_log-IsLogged}
use money_interoperability.Examples.Mapping.{new_mapping, by_relayer, created}

world-Mints : Mints world config 1 deposit 900 600 (λ _. 500)
world-Mints = record { accepted = λ h tx n. refl; mints = λ h. refl }

may_register : MayRegister by_relayer 900 new_mapping
may_register = record { authorized = refl; nonzero = (omega arith); new = refl }

due_deposit_linked_example :
    let (exit, t) = process_event world 3 config deposit_log fresh in
    (exit ≡ done tt)
    × (ws : List Write) × (writes t.history ≡ ws ++ writes fresh.history)
    × (status (written by_relayer ws new_mapping) 900 ≡ linked 600)
    × (listed (written by_relayer ws new_mapping).incomplete_deposits 900 ≡ false)
due_deposit_linked_example =
    due_deposit_linked world 3 config 1 deposit_log 900 600 (λ _. 500) deposit world-Serves
      world-Mints deposit_log-IsLogged by_relayer new_mapping
      (create-IsConsistent false 1 2 new_mapping created) fresh may_register (omega arith)
      (λ j. ground arith)
