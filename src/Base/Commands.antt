-- ===== src/Base/Commands.antt =====
-- base/src/commands: the commands that have parameters.
pub mod Management
pub mod Objects
