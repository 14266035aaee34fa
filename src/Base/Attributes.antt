-- ===== src/Base/Attributes.antt =====
-- base/src/lib.rs: the fields of several bits in the attributes, and the bits that have names. An
-- attribute is its number; `!mask` is what is missing to 2^32 - 1.
pub mod Bits
pub mod Fields
pub mod Flags
use tpm_rs.Prelude.{
  ℕ, ◌-◌, ◌*◌, ◌/◌, ◌%◌, ◌^◌, bit_and, bit_or, Bool, true, false, ◌==◌, if◌then◌else◌,
}

unfoldable pub new_attribute_field : ℕ → ℕ → ℕ → ℕ
new_attribute_field value mask shift = bit_and (value * 2 ^ shift % 2 ^ 32) mask

unfoldable pub get_attribute_field : ℕ → ℕ → ℕ → ℕ
get_attribute_field value mask shift = bit_and value mask / 2 ^ shift

unfoldable pub set_attribute_field : ℕ → ℕ → ℕ → ℕ → ℕ
set_attribute_field value field_value mask shift =
    bit_or (bit_and value (2 ^ 32 - 1 - mask)) (new_attribute_field field_value mask shift)

-- `TpmaLocality::is_extended`
unfoldable pub is_extended : ℕ → Bool
is_extended locality = if bit_and locality 0xE0 == 0 then false else true

-- `TpmaNv`
abbrev pub nt_mask : ℕ
nt_mask = 0xF0

abbrev pub nt_shift : ℕ
nt_shift = 4

unfoldable pub from_index_type : ℕ → ℕ
from_index_type index_type = new_attribute_field index_type nt_mask nt_shift

unfoldable pub get_index_type : ℕ → ℕ
get_index_type nv = get_attribute_field nv nt_mask nt_shift % 2 ^ 8

unfoldable pub set_type : ℕ → ℕ → ℕ
set_type nv index_type = set_attribute_field nv index_type nt_mask nt_shift

-- `TpmaCc`
abbrev pub command_index_shift : ℕ
command_index_shift = 0

abbrev pub command_index_mask : ℕ
command_index_mask = 0xFFFF

abbrev pub c_handles_shift : ℕ
c_handles_shift = 25

abbrev pub c_handles_mask : ℕ
c_handles_mask = 0x7 * 2 ^ c_handles_shift

unfoldable pub command_index : ℕ → ℕ
command_index index = new_attribute_field index command_index_mask command_index_shift

unfoldable pub c_handles : ℕ → ℕ
c_handles count = new_attribute_field count c_handles_mask c_handles_shift

unfoldable pub get_command_index : ℕ → ℕ
get_command_index cc = get_attribute_field cc command_index_mask command_index_shift % 2 ^ 16

unfoldable pub get_c_handles : ℕ → ℕ
get_c_handles cc = get_attribute_field cc c_handles_mask c_handles_shift

unfoldable pub set_command_index : ℕ → ℕ → ℕ
set_command_index cc index = set_attribute_field cc index command_index_mask command_index_shift

unfoldable pub set_c_handles : ℕ → ℕ → ℕ
set_c_handles cc count = set_attribute_field cc count c_handles_mask c_handles_shift
