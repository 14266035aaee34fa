-- ===== src/Tpm2b.antt =====
-- Sized buffers: the code that marshalable-derive/src/lib.rs generates for structs marked
-- `#[marshalable(tpm2b_simple)]` and for `#[derive(Tpm2bStruct)]`.
pub mod Simple
pub mod Sized
pub mod ReadLaws
pub mod SimpleLaws
pub mod FromBytes
pub mod Struct
