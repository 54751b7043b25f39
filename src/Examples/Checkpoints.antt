-- ===== src/Examples/Checkpoints.antt =====
-- A checkpoint with two burns, from its report to its completion.
use money_interoperability.Prelude.{◌≡◌, refl, List, [], ◌∷◌, arith}
use money_interoperability.World.{Hash, ok, BridgeTo}
use money_interoperability.Contracts.Mapping.{revert_if}
use money_interoperability.Contracts.OmInterop.Admin.{
  initialize, map_token_addresses, execute, history,
}
use money_interoperability.Contracts.OmInterop.Bridge.{
  bridge_from, bridge_to, bridge_validated, quote_bridge_to_validated, enforce_sequential_nonce,
  increase_inbound_nonce, latest_inbound_nonce, dispatch_by,
}
use money_interoperability.Contracts.OmInterop.Checkpoints.{
  get_latest_completed_checkpoint, update_checkpoint_info, certify_all, certify, certify_new,
  count_certified, count_completed, count_processed, complete_bridge, record_processed_bridge,
  try_prune_checkpoint, prune_loop,
}
use money_interoperability.Contracts.OmInterop.Lifecycle.{
  bridge_each, reported_checkpoint_completes,
}
use money_interoperability.Contracts.OmInterop.RateLimits.{
  set_rate_limit, check_and_update_rate_limit,
}
use money_interoperability.Contracts.OmInterop.Reports.{Stands, AreNew}
use money_interoperability.Contracts.OmInterop.State.{Layout, Env, settle}
use money_interoperability.Examples.Interop.{by, interop, withdrawal}

abbrev hashes : List Hash
hashes = 800 ∷ 801 ∷ []

abbrev transfers : List (Env × BridgeTo)
transfers = (by 3, withdrawal 0 1 800) ∷ (by 3, withdrawal 1 1 801) ∷ []

abbrev reported : Layout
reported = settle interop (update_checkpoint_info (by 3) 1 hashes interop)

abbrev bridged : Layout
bridged = settle reported (bridge_each transfers reported)

interop-Stands : Stands 1 0 0 interop
unfolding history execute initialize map_token_addresses set_rate_limit bridge_from
    increase_inbound_nonce check_and_update_rate_limit latest_inbound_nonce revert_if
interop-Stands = record { earliest = refl; certifies = refl; completes = refl; next_open = refl }

hashes-AreNew : AreNew interop.checkpoint_ids_by_source_hash interop.processed_bridges hashes
unfolding history execute initialize map_token_addresses set_rate_limit bridge_from
    increase_inbound_nonce check_and_update_rate_limit latest_inbound_nonce revert_if
hashes-AreNew = (refl, refl, ((omega arith), tt), (refl, refl, tt, tt))

accepted_calls :
    (update_checkpoint_info (by 3) 1 hashes interop ≡ ok reported)
    × (bridge_each transfers reported ≡ ok bridged)
unfolding history execute initialize map_token_addresses set_rate_limit bridge_from
    increase_inbound_nonce check_and_update_rate_limit latest_inbound_nonce revert_if bridge_to
    bridge_validated quote_bridge_to_validated enforce_sequential_nonce dispatch_by
    record_processed_bridge update_checkpoint_info certify_all certify certify_new count_certified
    count_completed count_processed complete_bridge try_prune_checkpoint prune_loop bridge_each
accepted_calls = (refl, refl)

reported_checkpoint_completes_example : get_latest_completed_checkpoint bridged ≡ 1
reported_checkpoint_completes_example =
    reported_checkpoint_completes 1 (omega arith) (omega arith) (by 3) hashes transfers interop
      reported bridged interop-Stands hashes-AreNew (omega arith) refl (refl, (refl, tt))
      accepted_calls.0 accepted_calls.1
