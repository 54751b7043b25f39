-- ===== src/Poa.antt =====
-- code/crates/relayer/src/poa: each new epoch's validators become the sidechain's validator set.
pub mod Drift
pub mod Stopping
pub mod Once
use money_interoperability.Prelude.{ℕ, List, [], ◌∷◌}
use money_interoperability.World.{World, Address, Validator, ValidatorInfo, Reply, ok, err}
use money_interoperability.Action.{Action, pure, or_raise, ◌>>=◌, ◌>>◌}
use money_interoperability.Config.{Config}
use money_interoperability.Onemoney.Error as OnemoneyErrors
use money_interoperability.Onemoney.Stream.{attempt, epoch_stream}
use money_interoperability.Onemoney.Types.{Epoch, validator_info}
use money_interoperability.Sidechain.Error as SidechainErrors
use money_interoperability.Sidechain.Update.{process_new_validator_set}

pub data Error : Type 0 where
  onemoney : OnemoneyErrors.Error → Error
  sidechain : SidechainErrors.Error → Error
  invalid_validator_key : Address → Error

module _ (w : World) where
  abbrev add_info :
      Reply OnemoneyErrors.Error ValidatorInfo
      → Reply OnemoneyErrors.Error (List ValidatorInfo)
      → Reply OnemoneyErrors.Error (List ValidatorInfo)
  add_info (err e) rest = err e
  add_info (ok v) (err e) = err e
  add_info (ok v) (ok vs) = ok (v ∷ vs)

  -- `.map(ValidatorInfo::try_from).collect::<Result<Vec<_>, _>>()`
  unfoldable pub validator_infos : List Validator → Reply OnemoneyErrors.Error (List ValidatorInfo)
  validator_infos [] = ok []
  validator_infos (v ∷ vs) = add_info (validator_info w v) (validator_infos vs)

  -- The body of the loop over epochs: a failed update and a failed query are logged, a key that is
  -- not a point ends the relay.
  unfoldable pub process_epoch : Reply OnemoneyErrors.Error Epoch → Action Error (Unit {0})
  process_epoch (err e) = pure tt
  process_epoch (ok epoch) = do
    infos ← or_raise onemoney (validator_infos epoch.validator_set.members)
    attempt w (process_new_validator_set w infos)
    pure tt

  unfoldable pub relay_poa_events : ℕ → Config → Action Error (Unit {0})
  relay_poa_events polls config = epoch_stream w polls config.one_money_node_url process_epoch
