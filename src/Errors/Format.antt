-- ===== src/Errors/Format.antt =====
-- errors/src/tpm_rc/mod.rs: what `format1_parameter` reads back from the codes that the functions
-- `*_for` build.
use tpm_rs.Prelude.{◌≡◌, refl, some, none, Option}
use tpm_rs.Errors.{
  TpmRcError, ErrorType, ErrorPosition, parameter, handle, session, asymmetric_for, value_for,
  size_for, selector_for, format1_parameter,
}

-- That a code was built, and is read back as `r`.
pub Reports : Option TpmRcError → ErrorType × ErrorPosition → Type 0
Reports none r = ⊥
Reports (some e) r = format1_parameter e ≡ some r

-- The position whose number has the bit 8 set, and is otherwise the same.
abbrev pub with_bit_8 : ErrorPosition → ErrorPosition
with_bit_8 ErrorPosition.pos1 = ErrorPosition.pos9
with_bit_8 ErrorPosition.pos2 = ErrorPosition.pos_a
with_bit_8 ErrorPosition.pos3 = ErrorPosition.pos_b
with_bit_8 ErrorPosition.pos4 = ErrorPosition.pos_c
with_bit_8 ErrorPosition.pos5 = ErrorPosition.pos_d
with_bit_8 ErrorPosition.pos6 = ErrorPosition.pos_e
with_bit_8 ErrorPosition.pos7 = ErrorPosition.pos_f
with_bit_8 ErrorPosition.pos8 = ErrorPosition.pos8
with_bit_8 ErrorPosition.pos9 = ErrorPosition.pos9
with_bit_8 ErrorPosition.pos_a = ErrorPosition.pos_a
with_bit_8 ErrorPosition.pos_b = ErrorPosition.pos_b
with_bit_8 ErrorPosition.pos_c = ErrorPosition.pos_c
with_bit_8 ErrorPosition.pos_d = ErrorPosition.pos_d
with_bit_8 ErrorPosition.pos_e = ErrorPosition.pos_e
with_bit_8 ErrorPosition.pos_f = ErrorPosition.pos_f

-- What is read back: a parameter as itself, a handle as a session, and a session with the bit of its
-- mask in the position.
abbrev pub read_back : ErrorType → ErrorPosition → ErrorType × ErrorPosition
read_back parameter pos = (parameter, pos)
read_back handle pos = (session, pos)
read_back session pos = (session, with_bit_8 pos)

pub AllReport : ErrorType → ErrorPosition → Type 0
AllReport on pos =
    Reports (asymmetric_for on pos) (read_back on pos)
    × Reports (value_for on pos) (read_back on pos)
    × Reports (size_for on pos) (read_back on pos)
    × Reports (selector_for on pos) (read_back on pos)

parameter-AllReport : (pos : ErrorPosition) → AllReport parameter pos
unfolding AllReport Reports asymmetric_for value_for size_for selector_for format1_parameter
parameter-AllReport ErrorPosition.pos1 = (refl, refl, refl, refl)
parameter-AllReport ErrorPosition.pos2 = (refl, refl, refl, refl)
parameter-AllReport ErrorPosition.pos3 = (refl, refl, refl, refl)
parameter-AllReport ErrorPosition.pos4 = (refl, refl, refl, refl)
parameter-AllReport ErrorPosition.pos5 = (refl, refl, refl, refl)
parameter-AllReport ErrorPosition.pos6 = (refl, refl, refl, refl)
parameter-AllReport ErrorPosition.pos7 = (refl, refl, refl, refl)
parameter-AllReport ErrorPosition.pos8 = (refl, refl, refl, refl)
parameter-AllReport ErrorPosition.pos9 = (refl, refl, refl, refl)
parameter-AllReport ErrorPosition.pos_a = (refl, refl, refl, refl)
parameter-AllReport ErrorPosition.pos_b = (refl, refl, refl, refl)
parameter-AllReport ErrorPosition.pos_c = (refl, refl, refl, refl)
parameter-AllReport ErrorPosition.pos_d = (refl, refl, refl, refl)
parameter-AllReport ErrorPosition.pos_e = (refl, refl, refl, refl)
parameter-AllReport ErrorPosition.pos_f = (refl, refl, refl, refl)

handle-AllReport : (pos : ErrorPosition) → AllReport handle pos
unfolding AllReport Reports asymmetric_for value_for size_for selector_for format1_parameter
handle-AllReport ErrorPosition.pos1 = (refl, refl, refl, refl)
handle-AllReport ErrorPosition.pos2 = (refl, refl, refl, refl)
handle-AllReport ErrorPosition.pos3 = (refl, refl, refl, refl)
handle-AllReport ErrorPosition.pos4 = (refl, refl, refl, refl)
handle-AllReport ErrorPosition.pos5 = (refl, refl, refl, refl)
handle-AllReport ErrorPosition.pos6 = (refl, refl, refl, refl)
handle-AllReport ErrorPosition.pos7 = (refl, refl, refl, refl)
handle-AllReport ErrorPosition.pos8 = (refl, refl, refl, refl)
handle-AllReport ErrorPosition.pos9 = (refl, refl, refl, refl)
handle-AllReport ErrorPosition.pos_a = (refl, refl, refl, refl)
handle-AllReport ErrorPosition.pos_b = (refl, refl, refl, refl)
handle-AllReport ErrorPosition.pos_c = (refl, refl, refl, refl)
handle-AllReport ErrorPosition.pos_d = (refl, refl, refl, refl)
handle-AllReport ErrorPosition.pos_e = (refl, refl, refl, refl)
handle-AllReport ErrorPosition.pos_f = (refl, refl, refl, refl)

session-AllReport : (pos : ErrorPosition) → AllReport session pos
unfolding AllReport Reports asymmetric_for value_for size_for selector_for format1_parameter
session-AllReport ErrorPosition.pos1 = (refl, refl, refl, refl)
session-AllReport ErrorPosition.pos2 = (refl, refl, refl, refl)
session-AllReport ErrorPosition.pos3 = (refl, refl, refl, refl)
session-AllReport ErrorPosition.pos4 = (refl, refl, refl, refl)
session-AllReport ErrorPosition.pos5 = (refl, refl, refl, refl)
session-AllReport ErrorPosition.pos6 = (refl, refl, refl, refl)
session-AllReport ErrorPosition.pos7 = (refl, refl, refl, refl)
session-AllReport ErrorPosition.pos8 = (refl, refl, refl, refl)
session-AllReport ErrorPosition.pos9 = (refl, refl, refl, refl)
session-AllReport ErrorPosition.pos_a = (refl, refl, refl, refl)
session-AllReport ErrorPosition.pos_b = (refl, refl, refl, refl)
session-AllReport ErrorPosition.pos_c = (refl, refl, refl, refl)
session-AllReport ErrorPosition.pos_d = (refl, refl, refl, refl)
session-AllReport ErrorPosition.pos_e = (refl, refl, refl, refl)
session-AllReport ErrorPosition.pos_f = (refl, refl, refl, refl)

-- For each of the four functions that build a format-1 code, each type and each position,
-- format1_parameter reads a parameter back with its position, a handle as a session with the
-- position, and a session with the position whose bit 8 is set.
pub format1_parameter-for : (on : ErrorType) (pos : ErrorPosition) → AllReport on pos
format1_parameter-for parameter pos = parameter-AllReport pos
format1_parameter-for handle pos = handle-AllReport pos
format1_parameter-for session pos = session-AllReport pos
