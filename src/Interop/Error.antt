-- ===== src/Interop/Error.antt =====
-- code/crates/onemoney_interop/src/error.rs.
use money_interoperability.World.{Fault}

pub data InteropError : Type 0 where
  transport : Fault → InteropError
  decode : InteropError
