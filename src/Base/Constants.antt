-- ===== src/Base/Constants.antt =====
-- base/src/constants.rs: the enumerations.
pub mod Algorithms
pub mod Commands
pub mod Responses
pub mod Properties
pub mod Tags
pub mod Interface
