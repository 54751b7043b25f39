-- ===== src/Sidechain/Error.antt =====
-- code/crates/relayer/src/sidechain/error.rs.
use money_interoperability.World.{Fault}

pub data Error : Type 0 where
  process_validator_set : Fault → Error
  pending_transaction_receipt : Fault → Error
  validator_manager_contract_reverted : Fault → Error
