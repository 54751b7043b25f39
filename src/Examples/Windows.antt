-- ===== src/Examples/Windows.antt =====
-- The windows of a range of 250,001 blocks.
use money_interoperability.Prelude.{ℕ, ◌≡◌, List, arith}
use money_interoperability.Action.{◌>>=◌, pure, for_windows}
use money_interoperability.Action.Loops.Windows.{IsPartition}
use money_interoperability.Incoming.Recovery.{clear_window, interval_clearing}
use money_interoperability.Incoming.Recovery.Clearing.{interval_clearing-IsPartition}
use money_interoperability.Examples.{config, world}

interval_clearing-IsPartition_example :
    (ws : List (ℕ × ℕ)) × IsPartition 5 250_000 ws
    × (interval_clearing world 4 3 config 5 250_000
        ≡ (for_windows ws tt (clear_window world 3 config) >>= λ _. pure tt))
interval_clearing-IsPartition_example =
    interval_clearing-IsPartition world 3 config 3 5 250_000 (omega arith) (omega arith)
