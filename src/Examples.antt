-- ===== src/Examples.antt =====
-- Concrete inputs for the theorems on base/src, marshalable-derive/src, errors/src, server/src, client/src and unionify-derive/src.
pub mod Values
pub mod Types
pub mod Client
pub mod Steps
pub mod Buffers
pub mod Server
pub mod Helpers
pub mod Words
pub mod Unions
