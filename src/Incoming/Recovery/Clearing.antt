-- ===== src/Incoming/Recovery/Clearing.antt =====
-- The clearing of an interval of blocks.
use money_interoperability.Prelude.{ℕ, suc, ◌+◌, ◌*◌, ◌≤◌, ◌<◌, ◌≡◌, ap, List, u64_max}
use money_interoperability.World.{World}
use money_interoperability.Action.{◌>>=◌, pure, for_windows, max_block_range}
use money_interoperability.Action.Loops.Windows.{IsPartition, scan_blocks_windows}
use money_interoperability.Config.{Config}
use money_interoperability.Incoming.Recovery.{clear_window, interval_clearing}

-- If the interval leaves room in 64 bits and the rounds are one more than what covers it in steps of
-- 100,000 blocks, its clearing queries and processes the events of a list of windows, in order, and
-- these windows hold every block of the interval once and none outside it.
pub interval_clearing-IsPartition :
    (w : World) (rounds : ℕ) (config : Config) (f from_block to_block : ℕ)
    → to_block + max_block_range ≤ u64_max
    → to_block < from_block + f * max_block_range
    → (ws : List (ℕ × ℕ)) × IsPartition from_block to_block ws
      × (interval_clearing w (suc f) rounds config from_block to_block
          ≡ (for_windows ws tt (clear_window w rounds config) >>= λ _. pure tt))
unfolding interval_clearing
interval_clearing-IsPartition w rounds config f from_block to_block fits enough =
    let (ws, partition, same) =
      scan_blocks_windows (clear_window w rounds config) f from_block to_block fits enough in
    (ws, partition, ap (λ m. m >>= λ _. pure tt) (same tt))
