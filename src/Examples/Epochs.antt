-- ===== src/Examples/Epochs.antt =====
-- An epoch with one validator, whose update the contract accepts or reverts.
use money_interoperability.Prelude.{
  ◌&&◌, insert_by, false, sort_by, ◌≡◌, refl, List, [], ◌∷◌, some, arith,
}
use money_interoperability.World.{
  Message, pending, update_validator_set, epoch, RawEpoch, World, Call, Response, History,
  Validator, ValidatorInfo, ok, send, reverted,
}
use money_interoperability.Action.{fetch_add, ask, ◌>>=◌, State, waiting, done}
use money_interoperability.Action.Nonces.{IsAligned, IsAhead}
use money_interoperability.Action.Writes.{sent, writes}
use money_interoperability.Submit.{settle_required, send_required}
use money_interoperability.Onemoney.Stream.{epoch_step, epoch_loop, attempt, epoch_stream}
use money_interoperability.Onemoney.Types.{epoch_from_raw, Epoch, validator_info}
use money_interoperability.Sidechain.Diff.{contains, to_set, difference, compute_validator_diffs}
use money_interoperability.Sidechain.Keys.{address, encoded_key, verifying_key, public_key_bytes}
use money_interoperability.Sidechain.Update.{
  send_update, process_new_validator_set, is_empty, all_some, registration,
}
use money_interoperability.Poa.{relay_poa_events, validator_infos, process_epoch}
use money_interoperability.Poa.Drift.{Rejects, process_epoch-IsAhead}
use money_interoperability.Poa.Once.{polled, relay_poa_events-once}
use money_interoperability.Poa.Stopping.{relay_poa_events-stops}
use money_interoperability.Examples.{get_epoch, config, world, crates, respond, fresh}

abbrev member : Validator
member = record { consensus_public_key = 9; address = 51; peer_id = "p"; archive = false }

abbrev new_epoch : Epoch
new_epoch = record {
  epoch_id = 2;
  certificate_hash = 70;
  validator_set = record { members = member ∷ [] };
}

abbrev infos : List ValidatorInfo
infos = record { validator_key = record { x = 1; y = 2 }; power = 100 } ∷ []

infos-valid : validator_infos world new_epoch.validator_set.members ≡ ok infos
unfolding validator_infos validator_info
infos-valid = refl

start-IsAligned : IsAligned 12 fresh
start-IsAligned = record { bounded = omega arith; consecutive = refl }

abbrev rejecting_respond : History → (c : Call) → Response c
rejecting_respond h (send _ _) = reverted 3
rejecting_respond h c = respond h c

abbrev rejecting_world : World
rejecting_world = record { crates = crates; respond = rejecting_respond }

rejecting_world-Rejects : Rejects rejecting_world [] 3
rejecting_world-Rejects = record { validators = λ h. refl; rejects = λ h tx n. refl }

infos-valid_again : validator_infos rejecting_world new_epoch.validator_set.members ≡ ok infos
unfolding validator_infos validator_info
infos-valid_again = refl

diff_is_full :
    (is_empty (compute_validator_diffs [] infos).0 && is_empty (compute_validator_diffs [] infos).1)
    ≡ false
unfolding compute_validator_diffs to_set difference contains sort_by insert_by
diff_is_full = refl

registered :
    all_some (registration rejecting_world) (compute_validator_diffs [] infos).0
    ≡ some (record { public_key = 2 ∷ []; power = 100 } ∷ [])
unfolding compute_validator_diffs to_set difference contains sort_by insert_by registration
    public_key_bytes verifying_key encoded_key
registered = refl

none_removed : all_some (address rejecting_world) (compute_validator_diffs [] infos).1 ≡ some []
unfolding compute_validator_diffs to_set difference contains sort_by insert_by
none_removed = refl

process_epoch-IsAhead_example :
    let (exit, s') = process_epoch rejecting_world (ok new_epoch) fresh in
    (exit ≡ done tt) × IsAhead 12 s'
process_epoch-IsAhead_example =
    process_epoch-IsAhead 12 rejecting_world new_epoch infos [] 3
      (record { public_key = 2 ∷ []; power = 100 } ∷ []) [] fresh infos-valid_again
      rejecting_world-Rejects diff_is_full registered none_removed start-IsAligned

relay_poa_events-stops_example : (relay_poa_events world 6 config fresh).0 ≡ done tt
relay_poa_events-stops_example =
    relay_poa_events-stops world config "http://om" 1 5 fresh refl (λ h. refl)

abbrev message : Message
message = record {
  epoch = record { epoch_id = 2 };
  chain = 1;
  special_accounts = record {
    operator_public_key = 60;
    operator_address = 61;
    escrow_account_public_key = 62;
    escrow_account_address = 63;
    pricing_authority_public_key = 64;
    pricing_authority_address = 65;
  };
  validator_set = new_epoch.validator_set;
}

abbrev raw_epoch : RawEpoch
raw_epoch = record {
  epoch_id = 2;
  certificate_hash = 70;
  certificate = epoch (record { message = message });
}

abbrev serving_respond : History → (c : Call) → Response c
serving_respond h (get_epoch _) = ok raw_epoch
serving_respond h c = respond h c

abbrev serving_world : World
serving_world = record { crates = crates; respond = serving_respond }

abbrev after_poll : State
after_poll = polled serving_world "http://om" raw_epoch (λ h. refl) fresh

first_returns : (process_epoch serving_world (ok (epoch_from_raw raw_epoch)) after_poll).0 ≡ done tt
unfolding process_epoch epoch_from_raw validator_infos validator_info attempt
    process_new_validator_set send_update registration public_key_bytes verifying_key encoded_key
    address send_required compute_validator_diffs to_set difference contains sort_by insert_by
    settle_required ◌>>=◌ ask fetch_add
first_returns = refl

relay_poa_events-once_example :
    let (exit, t) = relay_poa_events serving_world 6 config fresh in
    (exit ≡ waiting)
    × (writes t.history
        ≡ writes (process_epoch serving_world (ok (epoch_from_raw raw_epoch)) after_poll).1.history)
relay_poa_events-once_example =
    relay_poa_events-once serving_world "http://om" raw_epoch (λ h. refl) config 5 fresh refl
      first_returns

-- The update of the validator set is sent once.
updated_once :
    writes (relay_poa_events serving_world 6 config fresh).1.history
    ≡ sent
        (update_validator_set (record { public_key = 2 ∷ []; power = 100 } ∷ []) [])
        (pending 500)
      ∷ []
unfolding relay_poa_events epoch_stream epoch_loop epoch_step process_epoch epoch_from_raw
    validator_infos validator_info attempt process_new_validator_set send_update registration
    public_key_bytes verifying_key encoded_key address send_required compute_validator_diffs to_set
    difference contains sort_by insert_by settle_required ◌>>=◌ ask fetch_add
updated_once = refl
