-- ===== src/Client.antt =====
-- client/src: the sessions and the transaction of a command.
pub mod Session
pub mod Areas
pub mod Emit
pub mod Header
pub mod Command
pub mod Response
pub mod Run
pub mod Instances
pub mod Interop
pub mod Refused
