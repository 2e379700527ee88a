-- ===== src/Ffi.antt =====
-- The crate splittr-ffi (splittr-core/crates/splittr-ffi/src): the border to the user interface.
pub mod Dto
pub mod Convert
pub mod Hex
pub mod Api
pub mod Engine
