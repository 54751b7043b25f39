-- ===== src/Interop.antt =====
-- code/crates/onemoney_interop: the stream of events of the OMInterop contract, its deployment, and
-- the build script.
pub mod Error
pub mod Event
pub mod Contract
pub mod Build
