-- ===== src/Errors/Tss.antt =====
-- errors/src/lib.rs and errors/src/tss_rc.rs: `TssError` and the codes of the client's layers.
use tpm_rs.Prelude.{ℕ, ◌*◌, ◌^◌, bit_or, Option, none, some, ◌==◌, if◌then◌else◌}
use tpm_rs.Errors.Rc.{TpmRcError}

-- A newtype of `NonZeroU32`.
pub record TssError : Type 0 where
  pub code : ℕ

-- `impl TryFrom<u32> for TssError`; `none` is `TssErrorCannotBeZero`.
unfoldable pub tss_try_from : ℕ → Option TssError
tss_try_from val = if val == 0 then none else some (record { code = val })

-- `impl From<TpmRcError> for TssError`
abbrev pub from_rc : TpmRcError → TssError
from_rc e = record { code = e.code }

-- `new` of the macro `generate_tss_layer_error`, at a layer; no value is 0, since no layer is.
abbrev pub layer_new : ℕ → ℕ → TssError
layer_new layer v = record { code = bit_or v (layer * 2 ^ 12) }

-- `TssTcsError` is layer 2.
abbrev pub tcs_new : ℕ → TssError
tcs_new = layer_new 0x2

-- `TssTcsError::BadParameter`
abbrev pub bad_parameter : TssError
bad_parameter = tcs_new 3

-- `TssTcsError::OutOfMemory`
abbrev pub out_of_memory : TssError
out_of_memory = tcs_new 5

-- `TssTcsError::TpmUnexpected`
abbrev pub tpm_unexpected : TssError
tpm_unexpected = tcs_new 16
