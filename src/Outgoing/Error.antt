-- ===== src/Outgoing/Error.antt =====
-- code/crates/relayer/src/outgoing/error.rs. The text of a `Generic` error is not modelled.
use money_interoperability.World.{Fault, OnemoneyError}
use money_interoperability.Onemoney.Error as OnemoneyErrors

pub data Error : Type 0 where
  onemoney : OnemoneyError → Error
  create_address parse_int convert_int : Error
  contract_call : Fault → Error
  pending_transaction : Fault → Error
  contract_rpc_transport : Fault → Error
  sidechain : OnemoneyErrors.Error → Error
  contract_reverted : Fault → Error
  mapping_contract_reverted : Fault → Error
  missing_checkpoint_number : Error
  generic : Error
