-- ===== src/Marshal.antt =====
-- marshalable/src/lib.rs: the trait `Marshalable`, its implementations for numbers and arrays, and
-- the reader `UnmarshalBuf`.
pub mod Core
pub mod Bytes
pub mod Lawful
pub mod RoundTrip
pub mod Signed
