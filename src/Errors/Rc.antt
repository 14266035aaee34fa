-- ===== src/Errors/Rc.antt =====
-- errors/src/tpm_rc/mod.rs: `TpmRcError`, `ErrorType` and `ErrorPosition`.
use tpm_rs.Prelude.{ℕ, ◌+◌, ◌*◌, bit_and, bit_or, Bool, Option, none, some, ◌==◌, if◌then◌else◌}

-- A newtype of `NonZeroU32`.
pub record TpmRcError : Type 0 where
  pub code : ℕ

pub data ErrorType : Type 0 where
  handle parameter session : ErrorType

pub data ErrorPosition : Type 0 where
  pos1 pos2 pos3 pos4 pos5 pos6 pos7 pos8 pos9 pos_a pos_b pos_c pos_d pos_e pos_f : ErrorPosition

-- `none` is the panic on 0.
unfoldable pub rc_new : ℕ → Option TpmRcError
rc_new val = if val == 0 then none else some (record { code = val })

abbrev pub parameter_mask : ℕ
parameter_mask = 0x40

abbrev pub session_mask : ℕ
session_mask = 0x800

abbrev pub handle_mask : ℕ
handle_mask = 0x0

unfoldable pub type_to_mask : ErrorType → ℕ
type_to_mask handle = handle_mask
type_to_mask parameter = parameter_mask
type_to_mask session = session_mask

-- The second test looks at the constant, as the source does, and not at `val`.
unfoldable pub type_from_mask : ℕ → Option ErrorType
type_from_mask val =
    if bit_and val 0x80 == 0
    then none
    else if bit_and val parameter_mask == 0
    then (if session_mask == 0 then some handle else some session)
    else some parameter

-- `self as u32`
abbrev pub position_number : ErrorPosition → ℕ
position_number pos1 = 1
position_number pos2 = 2
position_number pos3 = 3
position_number pos4 = 4
position_number pos5 = 5
position_number pos6 = 6
position_number pos7 = 7
position_number pos8 = 8
position_number pos9 = 9
position_number pos_a = 10
position_number pos_b = 11
position_number pos_c = 12
position_number pos_d = 13
position_number pos_e = 14
position_number pos_f = 15

-- `(self as u32) << 8`
unfoldable pub position_to_mask : ErrorPosition → ℕ
position_to_mask p = position_number p * 256

-- The arms of the `match` on `val & 0xF00`.
unfoldable pub position_of_field : ℕ → Option ErrorPosition
position_of_field f =
    if f == 0x100
    then some pos1
    else if f == 0x200
    then some pos2
    else if f == 0x300
    then some pos3
    else if f == 0x400
    then some pos4
    else if f == 0x500
    then some pos5
    else if f == 0x600
    then some pos6
    else if f == 0x700
    then some pos7
    else if f == 0x800
    then some pos8
    else if f == 0x900
    then some pos9
    else if f == 0xA00
    then some pos_a
    else if f == 0xB00
    then some pos_b
    else if f == 0xC00
    then some pos_c
    else if f == 0xD00
    then some pos_d
    else if f == 0xE00
    then some pos_e
    else if f == 0xF00
    then some pos_f
    else none

unfoldable pub position_from_mask : ℕ → Option ErrorPosition
unfolding position_of_field
position_from_mask val =
    if bit_and val 0x80 == 0 then none else position_of_field (bit_and val 0xF00)

-- The constants of `impl TpmRcError`.
abbrev pub rc_fmt1 : ℕ
rc_fmt1 = 0x080

abbrev pub asymmetric : TpmRcError
asymmetric = record { code = rc_fmt1 + 0x001 }

abbrev pub value : TpmRcError
value = record { code = rc_fmt1 + 0x004 }

abbrev pub size : TpmRcError
size = record { code = rc_fmt1 + 0x015 }

abbrev pub selector : TpmRcError
selector = record { code = rc_fmt1 + 0x018 }

abbrev pub bad_tag : TpmRcError
bad_tag = record { code = 0x1e }

abbrev pub initialize : TpmRcError
initialize = record { code = 0x100 }

abbrev pub failure : TpmRcError
failure = record { code = 0x101 }

abbrev pub sequence : TpmRcError
sequence = record { code = 0x102 }

abbrev pub command_size : TpmRcError
command_size = record { code = 0x142 }

abbrev pub command_code : TpmRcError
command_code = record { code = 0x143 }

abbrev pub context_gap : TpmRcError
context_gap = record { code = 0x901 }

abbrev pub object_memory : TpmRcError
object_memory = record { code = 0x902 }

abbrev pub session_memory : TpmRcError
session_memory = record { code = 0x903 }

abbrev pub memory : TpmRcError
memory = record { code = 0x904 }

unfoldable pub asymmetric_for : ErrorType → ErrorPosition → Option TpmRcError
unfolding rc_new type_to_mask position_to_mask
asymmetric_for on pos =
    rc_new (bit_or (bit_or asymmetric.code (type_to_mask on)) (position_to_mask pos))

unfoldable pub value_for : ErrorType → ErrorPosition → Option TpmRcError
unfolding rc_new type_to_mask position_to_mask
value_for on pos = rc_new (bit_or (bit_or value.code (type_to_mask on)) (position_to_mask pos))

unfoldable pub size_for : ErrorType → ErrorPosition → Option TpmRcError
unfolding rc_new type_to_mask position_to_mask
size_for on pos = rc_new (bit_or (bit_or size.code (type_to_mask on)) (position_to_mask pos))

unfoldable pub selector_for : ErrorType → ErrorPosition → Option TpmRcError
unfolding rc_new type_to_mask position_to_mask
selector_for on pos =
    rc_new (bit_or (bit_or selector.code (type_to_mask on)) (position_to_mask pos))

unfoldable pub is_warning : TpmRcError → Bool
is_warning e = bit_and e.code 0x980 == 0x900

-- The arms of the `match` of `format1_parameter`.
abbrev pub both_parts : Option ErrorType → Option ErrorPosition → Option (ErrorType × ErrorPosition)
both_parts (some on) (some pos) = some (on, pos)
both_parts (some on) none = none
both_parts none p = none

unfoldable pub format1_parameter : TpmRcError → Option (ErrorType × ErrorPosition)
unfolding type_from_mask position_from_mask
format1_parameter e = both_parts (type_from_mask e.code) (position_from_mask e.code)
