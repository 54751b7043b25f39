-- ===== src/Examples/Restart.antt =====
-- A relayer that restarts at the example's contract after its first two checkpoints are complete.
use money_interoperability.Prelude.{◌≡◌, refl, [], arith}
use money_interoperability.World.{
  World, Fault, History, Call, Response, SendReply, Reply, ok, err, pending, reverted, send,
  update_checkpoint_info, get_latest_completed_checkpoint,
}
use money_interoperability.Action.{fail, ◌>>=◌}
use money_interoperability.Outgoing.Error.{contract_reverted}
use money_interoperability.Outgoing.Recovery.{get_earliest_incomplete_checkpoint_number}
use money_interoperability.Outgoing.Restart.{Runs, restart_refused}
use money_interoperability.Outgoing.Stream.{relay_outgoing_events_from_checkpoints}
use money_interoperability.Contracts.OmInterop.Checkpoints as Checkpoints
use money_interoperability.Contracts.OmInterop.State as OmInterop
use money_interoperability.Contracts.OmInterop.State.{
  Layout, blank, checkpoint_completed_and_pruned,
}
use money_interoperability.Examples.{crates, respond, fresh}
use money_interoperability.Examples.Interop.{by}

-- Checkpoints 1 and 2 are complete.
abbrev storage : Layout
storage = record blank { relayer = 3; earliest_incompleted_checkpoint = 3 }

abbrev fault_of : OmInterop.Error → Fault
fault_of (checkpoint_completed_and_pruned id) = id
fault_of other = 99

abbrev reply_of : Reply OmInterop.Error Layout → SendReply
reply_of (ok s) = pending 500
reply_of (err e) = reverted (fault_of e)

-- The example's services, with the contract's own answers.
abbrev contract_respond : History → (c : Call) → Response c
contract_respond h get_latest_completed_checkpoint =
    ok (Checkpoints.get_latest_completed_checkpoint storage)
contract_respond h (send (update_checkpoint_info id hs) n) =
    reply_of (Checkpoints.update_checkpoint_info (by 3) id hs storage)
contract_respond h c = respond h c

abbrev contract_world : World
contract_world = record { crates = crates; respond = contract_respond }

runs : Runs contract_world storage (by 3) fault_of []
runs = record {
  completed = λ h. refl;
  refused = λ h id hs n e refusal. rw refusal refl;
  client = λ h. refl;
  read = λ h. refl;
}

restart_refused_example :
    ((get_earliest_incomplete_checkpoint_number contract_world
        >>= relay_outgoing_events_from_checkpoints contract_world 4)
      fresh).0
    ≡ fail (contract_reverted (fault_of (checkpoint_completed_and_pruned 2)))
restart_refused_example =
    restart_refused contract_world storage (by 3) fault_of [] runs refl (omega arith) 3 fresh
