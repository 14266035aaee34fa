-- ===== src/Server.antt =====
-- server/src: the command loop of the service.
pub mod Buffer
pub mod BufferLaws
pub mod Cursor
pub mod Crypto
pub mod Context
pub mod Spec
pub mod Refinement
pub mod Requests
pub mod Responses
pub mod Returns
pub mod Helpers
pub mod HelperLaws
pub mod Steps
