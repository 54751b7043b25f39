-- ===== src/Examples/Streams.antt =====
-- Logs of a window and of a subscription, and a checkpoint.
use money_interoperability.Prelude.{◌≡◌, refl, List, [], ◌∷◌, ◌++◌, none}
use money_interoperability.World.{OmInteropLog}
use money_interoperability.Action.Writes.{Write, writes}
use money_interoperability.Interop.Event.{should_emit, log_position}
use money_interoperability.Interop.Event.Order.{emitted, PassedOn, IsRising, emitted-IsRising}
use money_interoperability.Outgoing.Stream.{relay_outgoing_events_from_checkpoints}
use money_interoperability.Outgoing.Stream.Tallies.{
  Checkpoints, relay_outgoing_events_from_checkpoints-writes,
}
use money_interoperability.Examples.{world, fresh, deposit_log, refund_log}

-- The first log comes again after the second.
abbrev logs : List OmInteropLog
logs = deposit_log ∷ refund_log ∷ deposit_log ∷ []

passed_once : emitted none logs ≡ deposit_log ∷ refund_log ∷ []
unfolding emitted should_emit log_position
passed_once = refl

emitted-IsRising_example :
    IsRising none (emitted none logs) × PassedOn none logs (emitted none logs)
emitted-IsRising_example = emitted-IsRising none logs

relay_outgoing_events_from_checkpoints-writes_example :
    (ws : List Write) × Checkpoints world 3 ws
    × (writes (relay_outgoing_events_from_checkpoints world 2 3 fresh).1.history
        ≡ ws ++ writes fresh.history)
relay_outgoing_events_from_checkpoints-writes_example =
    relay_outgoing_events_from_checkpoints-writes world 2 3 fresh
