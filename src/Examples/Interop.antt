-- ===== src/Examples/Interop.antt =====
-- An OMInterop contract with one token, a rate limit, a deposit, and burns.
use money_interoperability.Prelude.{
  max, ltb, ◌/◌, if◌then◌else◌, ℕ, ◌+◌, ◌-◌, ◌*◌, ◌≤◌, ◌≡◌, refl, true, false, List, [], ◌∷◌, some,
  arith, u64_max,
}
use money_interoperability.World.{Address, Hash, ok, BridgeTo}
use money_interoperability.Contracts.Mapping.{revert_if}
use money_interoperability.Contracts.OmInterop.Admin.{
  Method, initializing, mapping_tokens, setting_rate_limit, bridging_from, bridging_to,
  updating_checkpoint, initialize, map_token_addresses, execute, history,
}
use money_interoperability.Contracts.OmInterop.Bridge.{
  bridge_from, bridge_to, bridge_validated, quote_bridge_to_validated, enforce_sequential_nonce,
  increase_inbound_nonce, latest_inbound_nonce, dispatch_by,
}
use money_interoperability.Contracts.OmInterop.Checkpoints.{
  get_latest_completed_checkpoint, update_checkpoint_info, certify_all, certify, certify_new,
  count_certified, count_processed, record_processed_bridge, try_prune_checkpoint, prune_loop,
}
use money_interoperability.Contracts.OmInterop.Invariant.{IsLimited}
use money_interoperability.Contracts.OmInterop.Late.{late_bridge_uncounted}
use money_interoperability.Contracts.OmInterop.Limits.{
  token_of, bridge_from-limited, history-bounded,
}
use money_interoperability.Contracts.OmInterop.Numbering.{nonces, upto, burns}
use money_interoperability.Contracts.OmInterop.Pruning.{Pruned, prune_loop-Pruned}
use money_interoperability.Contracts.OmInterop.RateLimits.{
  set_rate_limit, check_and_update_rate_limit,
}
use money_interoperability.Contracts.OmInterop.Replay.{history-numbered, bridge_to-next_burn}
use money_interoperability.Contracts.OmInterop.State.{
  Layout, Env, blank, mock, settle, CheckpointTally,
}
use money_interoperability.Contracts.OmInterop.Stuck.{IsStalled, empty_checkpoint_stalls}

abbrev pub by : Address → Env
by sender = record {
  sender = sender;
  timestamp = 100;
  is_owner = false;
  may_initialize = true;
  gas = 5;
  has_code = λ _. true;
  supports_price_oracle = λ _. true;
  bridge_with_layer_zero = λ _ _. some 3;
  convert_native_token_to_token = λ _ _ fee. some (fee * 2);
}

-- The operator is 2, the relayer 3; token 41 of 1Money is 42 on the sidechain.
abbrev pub setup : List (Env × Method)
setup =
    (by 1, initializing 1 2 3 4)
    ∷ (by 2, mapping_tokens 41 42 mock)
    ∷ (by 2, setting_rate_limit 41 10 50)
    ∷ (by 42, bridging_from 31 6)
    ∷ []

abbrev pub interop : Layout
interop = history setup blank

abbrev pub withdrawal : ℕ → ℕ → Hash → BridgeTo
withdrawal bbnonce checkpoint source = record {
  from = 31;
  bbnonce = bbnonce;
  to = 77;
  amount = 5;
  dst_chain_id = 2;
  escrow_fee = 1;
  om_token = 41;
  checkpoint_id = checkpoint;
  bridge_data = [];
  source_hash = source;
}

history-numbered_example :
    (nonces interop.events ≡ upto interop.next_inbound_nonce)
    × (interop.next_inbound_nonce ≤ u64_max)
history-numbered_example = history-numbered setup

-- The deposit has the nonce 0.
numbered_from_zero : nonces interop.events ≡ 0 ∷ []
unfolding history execute initialize map_token_addresses set_rate_limit bridge_from
    increase_inbound_nonce check_and_update_rate_limit latest_inbound_nonce revert_if
numbered_from_zero = refl

abbrev bridged : Layout
bridged = settle interop (bridge_to (by 3) (withdrawal 0 0 800) interop)

bridge_accepted : bridge_to (by 3) (withdrawal 0 0 800) interop ≡ ok bridged
unfolding history execute initialize map_token_addresses set_rate_limit bridge_from
    increase_inbound_nonce check_and_update_rate_limit latest_inbound_nonce revert_if bridge_to
    bridge_validated quote_bridge_to_validated enforce_sequential_nonce dispatch_by
    record_processed_bridge
bridge_accepted = refl

bridge_to-next_burn_example : (0 ≡ burns 31 interop.events) × (burns 31 bridged.events ≡ 1)
bridge_to-next_burn_example =
    bridge_to-next_burn (by 3) (withdrawal 0 0 800) setup bridged bridge_accepted

abbrev charged : Layout
charged = settle interop (bridge_from (by 42) 31 4 interop)

deposit_accepted : bridge_from (by 42) 31 4 interop ≡ ok charged
unfolding history execute initialize map_token_addresses set_rate_limit bridge_from
    increase_inbound_nonce check_and_update_rate_limit latest_inbound_nonce revert_if
deposit_accepted = refl

has_window : (interop.rate_limits_param (token_of (by 42) 31 4 interop)).window ≡ 50
unfolding history execute initialize map_token_addresses set_rate_limit bridge_from
    increase_inbound_nonce check_and_update_rate_limit latest_inbound_nonce revert_if
has_window = refl

bridge_from-limited_example :
    let param = interop.rate_limits_param (token_of (by 42) 31 4 interop) in
    let before = interop.rate_limits_data (token_of (by 42) 31 4 interop) in
    let after = charged.rate_limits_data (token_of (by 42) 31 4 interop) in
    (after.amount_in_flight
      ≡ (if ltb before.last_epoch (100 / param.window) then 4 else before.amount_in_flight + 4))
    × (after.last_epoch ≡ max before.last_epoch (100 / param.window))
    × (after.amount_in_flight ≤ param.limit)
bridge_from-limited_example =
    bridge_from-limited (by 42) 31 4 interop charged deposit_accepted (omega (arith, has_window))

history-bounded_example :
    IsLimited interop
    × (interop.next_inbound_nonce ≤ u64_max)
    × ((a : Address) → interop.latest_bb_nonce a ≤ u64_max)
history-bounded_example = history-bounded setup

-- Checkpoints 5 and 6 are complete, 7 is not.
abbrev tallies : ℕ → CheckpointTally
tallies id = record { certified = 2; completed = 9 - id }

abbrev prunable : Layout
prunable = record blank { earliest_incompleted_checkpoint = 5; checkpoint_tallies = tallies }

prune_loop-Pruned_example : (s' : Layout) × (prune_loop 4 prunable ≡ ok s') × Pruned prunable s'
prune_loop-Pruned_example = prune_loop-Pruned 4 3 prunable (omega arith) (omega arith) refl

-- Checkpoint 1 has no burn; checkpoint 2 has one, which is bridged.
abbrev empty_first : List (Env × Method)
empty_first =
    (by 3, updating_checkpoint 1 [])
    ∷ (by 3, updating_checkpoint 2 (800 ∷ []))
    ∷ (by 3, bridging_to (withdrawal 0 2 800))
    ∷ []

interop-IsStalled : IsStalled 1 interop
unfolding history execute initialize map_token_addresses set_rate_limit bridge_from
    increase_inbound_nonce check_and_update_rate_limit latest_inbound_nonce revert_if
interop-IsStalled = record { earliest = refl; uncertified = refl }

empty_checkpoint_stalls_example : get_latest_completed_checkpoint (history empty_first interop) ≡ 0
empty_checkpoint_stalls_example =
    empty_checkpoint_stalls 1 empty_first interop
      ((λ _. refl), ((λ e. absurd (omega (arith, e))), (tt, tt))) interop-IsStalled

-- The burn of checkpoint 1 is reported, and then bridged for checkpoint 0.
abbrev reported : Layout
reported = settle interop (update_checkpoint_info (by 3) 1 (800 ∷ []) interop)

abbrev late : Layout
late = settle reported (bridge_to (by 3) (withdrawal 0 0 800) reported)

abbrev reported_twice : Layout
reported_twice = settle late (update_checkpoint_info (by 3) 1 (800 ∷ []) late)

late_accepted :
    (bridge_to (by 3) (withdrawal 0 0 800) reported ≡ ok late)
    × (update_checkpoint_info (by 3) 1 (800 ∷ []) late ≡ ok reported_twice)
    × (reported.checkpoint_ids_by_source_hash 800 ≡ 1)
unfolding history execute initialize map_token_addresses set_rate_limit bridge_from
    increase_inbound_nonce check_and_update_rate_limit latest_inbound_nonce revert_if bridge_to
    bridge_validated quote_bridge_to_validated enforce_sequential_nonce dispatch_by
    record_processed_bridge update_checkpoint_info certify_all certify certify_new count_certified
    count_processed try_prune_checkpoint
late_accepted = (refl, refl, refl)

late_bridge_uncounted_example :
    (reported_twice.checkpoint_tallies ≡ reported.checkpoint_tallies)
    × (reported_twice.earliest_incompleted_checkpoint ≡ reported.earliest_incompleted_checkpoint)
late_bridge_uncounted_example =
    late_bridge_uncounted (by 3) (by 3) (withdrawal 0 0 800) 1 reported late reported_twice
      (omega (arith, late_accepted.2)) refl late_accepted.0 late_accepted.1
