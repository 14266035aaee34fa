-- ===== src/Derive.antt =====
-- marshalable-derive/src/lib.rs: the code that `#[derive(Marshalable)]` generates.
pub mod Fields
pub mod Enum
pub mod Laws
pub mod EntryLaws
pub mod EnumLaws
pub mod VariantLaws
pub mod Tagged
pub mod TaggedLaws
pub mod Counts
pub mod Selectors
