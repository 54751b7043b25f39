-- ===== src/Contracts/OmInterop/Checkpoints.antt =====
-- The tallies of checkpoints: updateCheckpointInfo, the record of a processed burn, and the pruning.
use money_interoperability.Prelude.{
  ℕ, zero, suc, ◌+◌, ◌-◌, ◌^◌, Bool, true, false, not, ◌&&◌, List, [], ◌∷◌, ltb, leb, ◌==◌,
  if◌then◌else◌, wrapping_add,
}
use money_interoperability.World.{Hash, Reply, ok, err}
use money_interoperability.Contracts.Mapping.{put, revert_if, ◌>>=◌, ◌>>◌}
use money_interoperability.Contracts.OmInterop.State.{
  Layout, CheckpointTally, no_tally, Env, Error, panicked, out_of_gas, only_relayer,
  checkpoint_completed_and_pruned, checkpoint_completed, checkpoint_already_registered,
}

abbrev pub u32_max : ℕ
u32_max = 2 ^ 32 - 1

abbrev pub is_complete : CheckpointTally → Bool
is_complete t = not (t.certified == 0) && leb t.certified t.completed

abbrev pub is_checkpoint_complete : ℕ → Layout → Bool
is_checkpoint_complete id s = is_complete (s.checkpoint_tallies id)

-- The body of the pruning loop.
abbrev pub prune_earliest : Layout → Layout
prune_earliest s =
    let finished : ℕ = s.earliest_incompleted_checkpoint in
    record s {
      checkpoint_tallies = put s.checkpoint_tallies finished no_tally;
      earliest_incompleted_checkpoint = wrapping_add finished 1;
    }

unfoldable pub prune_loop : ℕ → Layout → Reply Error Layout
prune_loop zero s = err out_of_gas
prune_loop (suc gas) s =
    let rest = prune_loop gas (prune_earliest s) in
    if is_checkpoint_complete s.earliest_incompleted_checkpoint s then rest else ok s

unfoldable pub try_prune_checkpoint : ℕ → ℕ → Layout → Reply Error Layout
try_prune_checkpoint gas id s = if not (is_checkpoint_complete id s) then ok s else prune_loop gas s

abbrev pub ensure_checkpoint_not_completed : ℕ → Layout → Reply Error (Unit {0})
ensure_checkpoint_not_completed id s =
    revert_if (not (id == 0) && ltb id s.earliest_incompleted_checkpoint)
      (checkpoint_completed_and_pruned id)

abbrev pub revert_if_checkpoint_complete : ℕ → Layout → Reply Error (Unit {0})
revert_if_checkpoint_complete id s =
    revert_if (is_checkpoint_complete id s) (checkpoint_completed id)

-- `tally.certified += 1` and `tally.completed += 1`, in checked arithmetic.
unfoldable pub count_certified : CheckpointTally → Reply Error CheckpointTally
count_certified t = do
  revert_if (leb u32_max t.certified) panicked
  ok (record t { certified = t.certified + 1 })

unfoldable pub count_completed : CheckpointTally → Reply Error CheckpointTally
count_completed t = do
  revert_if (leb u32_max t.completed) panicked
  ok (record t { completed = t.completed + 1 })

abbrev pub store_tally : ℕ → Layout → CheckpointTally → Layout
store_tally id s t = record s { checkpoint_tallies = put s.checkpoint_tallies id t }

-- A burn that was bridged before its checkpoint was known counts as completed.
unfoldable pub count_processed : Bool → CheckpointTally → Reply Error CheckpointTally
count_processed true t = count_completed t
count_processed false t = ok t

unfoldable pub certify_new : ℕ → Hash → Layout → Reply Error Layout
certify_new id h s = do
  t ← count_certified (s.checkpoint_tallies id)
  t' ← count_processed (s.processed_bridges h) t
  ok (record (store_tally id s t') {
    checkpoint_ids_by_source_hash = put s.checkpoint_ids_by_source_hash h id;
  })

-- A hash is certified unless a checkpoint is recorded for it.
unfoldable pub certify : ℕ → Hash → Layout → Reply Error Layout
certify id h s = if s.checkpoint_ids_by_source_hash h == 0 then certify_new id h s else ok s

-- The loop over the hashes of a checkpoint.
unfoldable pub certify_all : ℕ → List Hash → Layout → Reply Error Layout
certify_all id [] s = ok s
certify_all id (h ∷ hs) s = do s' ← certify id h s; certify_all id hs s'

unfoldable pub update_checkpoint_info : Env → ℕ → List Hash → Layout → Reply Error Layout
update_checkpoint_info env id hs s = do
  only_relayer env s
  ensure_checkpoint_not_completed id s
  revert_if (is_checkpoint_complete id s) (checkpoint_already_registered id)
  s' ← certify_all id hs s
  try_prune_checkpoint env.gas id s'

-- The update of a known checkpoint by a processed burn.
unfoldable pub complete_bridge : ℕ → Hash → ℕ → Layout → Reply Error Layout
complete_bridge gas h id s = do
  t ← count_completed (s.checkpoint_tallies id)
  try_prune_checkpoint gas id (record (store_tally id s t) {
    checkpoint_ids_by_source_hash = put s.checkpoint_ids_by_source_hash h id;
  })

unfoldable pub record_processed_bridge : ℕ → Hash → ℕ → Layout → Reply Error Layout
record_processed_bridge gas h id s =
    let marked : Layout = record s { processed_bridges = put s.processed_bridges h true } in
    if ltb 0 id then complete_bridge gas h id marked else ok marked

-- `checkpointId -= 1` is unchecked, behind the test for 0.
unfoldable pub get_latest_completed_checkpoint : Layout → ℕ
get_latest_completed_checkpoint s =
    if s.earliest_incompleted_checkpoint == 0 then 0 else s.earliest_incompleted_checkpoint - 1
