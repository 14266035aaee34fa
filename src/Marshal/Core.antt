-- ===== src/Marshal/Core.antt =====
-- marshalable/src/lib.rs. An `UnmarshalBuf` is the list of the bytes that it still holds. A reader
-- returns what is left; after an error no caller looks at the buffer again, so it is not returned.
-- A `&mut [u8]` is the list of its bytes, and a writer returns it beside its result.
use tpm_rs.Prelude.{
  ℕ, zero, suc, ◌+◌, ◌*◌, ◌/◌, ◌%◌, ◌<◌, Option, none, some, List, [], ◌∷◌, ◌++◌, length, take,
  drop, ltb, leb, if◌then◌else◌,
}
use tpm_rs.Outcome.{Outcome, ok, err, ◌>>=◌}
use tpm_rs.Errors.{TpmRcError, memory}

abbrev pub IsByte : ℕ → Type 0
IsByte b = b < 256

-- What a reader returns, and what a writer returns.
abbrev pub Read {ℓ} : Type ℓ → Type ℓ
Read A = Outcome TpmRcError (A × List ℕ)

abbrev pub Written : Type 0
Written = Outcome TpmRcError ℕ × List ℕ

-- The trait `Marshalable`.
pub record Marshalable {ℓ} (A : Type ℓ) : Type ℓ where
  pub try_unmarshal : List ℕ → Read A
  pub try_marshal : A → List ℕ → Written

-- `UnmarshalBuf::get`
unfoldable pub get : ℕ → List ℕ → Option (List ℕ × List ℕ)
get len buffer = if ltb (length buffer) len then none else some (take len buffer, drop len buffer)

-- `to_be_bytes` and `from_be_bytes` of a number of `w` bytes.
unfoldable pub to_be_bytes : ℕ → ℕ → List ℕ
to_be_bytes zero n = []
to_be_bytes (suc w) n = to_be_bytes w (n / 256) ++ n % 256 ∷ []

unfoldable pub be_value : ℕ → List ℕ → ℕ
be_value acc [] = acc
be_value acc (b ∷ bs) = be_value (acc * 256 + b) bs

abbrev pub from_be_bytes : List ℕ → ℕ
from_be_bytes = be_value 0

-- `impl Marshalable for [u8; M]`; the value is a list of M bytes.
unfoldable pub array_unmarshal : ℕ → List ℕ → Read (List ℕ)
array_unmarshal m buffer = elim (get m buffer) [ some mine ↦ ok mine | none ↦ err memory ]

unfoldable pub array_marshal : List ℕ → List ℕ → Written
array_marshal x buffer =
    if leb (length x) (length buffer)
    then (ok (length x), x ++ drop (length x) buffer)
    else (err memory, buffer)

abbrev pub byte_array : ℕ → Marshalable (List ℕ)
byte_array m = record { try_unmarshal = array_unmarshal m; try_marshal = array_marshal }

-- `impl_be_prim_marshalable!` for the unsigned type of `w` bytes: u8, u16, u32 and u64.
unfoldable pub prim_unmarshal : ℕ → List ℕ → Read ℕ
prim_unmarshal w buffer = do (x, rest) ← array_unmarshal w buffer; ok (from_be_bytes x, rest)

unfoldable pub prim_marshal : ℕ → ℕ → List ℕ → Written
prim_marshal w n buffer = array_marshal (to_be_bytes w n) buffer

abbrev pub prim : ℕ → Marshalable ℕ
prim w = record { try_unmarshal = prim_unmarshal w; try_marshal = prim_marshal w }

-- `impl Marshalable for ()`
abbrev pub unit : Marshalable (Unit {0})
unit = record {
  try_unmarshal = λ buffer. ok (tt, buffer);
  try_marshal = λ x buffer. (ok 0, buffer);
}
