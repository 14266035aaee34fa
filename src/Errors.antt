-- ===== src/Errors.antt =====
-- errors/src/tpm_rc/mod.rs, errors/src/lib.rs and errors/src/tss_rc.rs: the error codes of the
-- TPM service and of the client. A `NonZeroU32` is a number; `new` is where the source refuses 0.
mod Rc
mod Tss
pub mod Layers
pub mod Format
pub use Rc.{TpmRcError, ErrorType, ErrorPosition, handle, parameter, session}
unfoldable pub use Rc.{rc_new, type_to_mask, type_from_mask, position_to_mask, position_from_mask}
unfoldable pub use Rc.{asymmetric_for, value_for, size_for, selector_for}
unfoldable pub use Rc.{is_warning, format1_parameter}
pub use Rc.{asymmetric, value, size, selector, bad_tag, initialize, failure, sequence}
pub use Rc.{command_size, command_code, context_gap, object_memory, session_memory, memory}
pub use Tss.{TssError, from_rc, tcs_new, bad_parameter, out_of_memory, tpm_unexpected}
unfoldable pub use Tss.{tss_try_from}
