-- ===== src/Incoming/Error.antt =====
-- code/crates/relayer/src/incoming/error.rs. The text of a `Generic`
-- error is not modelled.
use money_interoperability.Prelude.{ℕ}
use money_interoperability.World.{Fault, OnemoneyError}
use money_interoperability.Interop.Error.{InteropError}

pub data Error : Type 0 where
  event_stream : InteropError → Error
  onemoney : OnemoneyError → Error
  missing_block_number missing_log_index missing_transaction_hash : Error
  nonce_mismatch : (sidechain layer1 : ℕ) → Error
  contract : Fault → Error
  pending_transaction : Fault → Error
  mapping_contract_reverted : Fault → Error
  rpc_transport : Fault → Error
  contract_reverted : Fault → Error
  generic : Error
