-- ===== src/Onemoney/Error.antt =====
-- code/crates/relayer/src/onemoney/error.rs. The text of a `Generic` error is not modelled.
use money_interoperability.World.{Fault, Address, OnemoneyError}

pub data Error : Type 0 where
  url : Fault → Error
  http : Fault → Error
  invalid_validator_key : Address → Error
  failed_query : OnemoneyError → Error
  pending_transaction : Fault → Error
  contract_call : Fault → Error
  generic : Error
