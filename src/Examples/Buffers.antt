-- ===== src/Examples/Buffers.antt =====
-- Sized buffers, counted arrays and error codes at concrete values.
use tpm_rs.Prelude.{ℕ, ◌≡◌, refl, arith, List, [], ◌∷◌, ◌++◌, replicate, inl}
use tpm_rs.Outcome.{ok, err, panic}
use tpm_rs.Errors.{size as size_error, session, ErrorPosition}
use tpm_rs.Errors.Format.{AllReport, format1_parameter-for}
use tpm_rs.Marshal.Core.{prim, to_be_bytes, from_be_bytes}
use tpm_rs.Marshal.Bytes.{length-to_be_bytes, from_be_bytes-to_be_bytes}
use tpm_rs.Marshal.Lawful.{prim-Lawful}
use tpm_rs.Derive.Fields.{counted_unmarshal}
use tpm_rs.Derive.Counts.{counted_unmarshal-too_many}
use tpm_rs.Tpm2b.Simple.{Tpm2b, overlay, from_bytes, get_buffer, tpm2b_marshal}
use tpm_rs.Tpm2b.SimpleLaws.{IsSized, overlay-IsSized, marshal_panics}
use tpm_rs.Tpm2b.FromBytes.{from_bytes-get_buffer, from_bytes_too_long}
use tpm_rs.Tpm2b.Struct.{from_struct, to_struct, from_struct-to_struct}

abbrev two : List ℕ
two = 1 ∷ 2 ∷ []

abbrev two_of_four : Tpm2b
two_of_four = record { size = 2; buffer = overlay two (replicate 4 0) }

two_of_four-IsSized : IsSized 4 two_of_four
two_of_four-IsSized =
    overlay-IsSized 4 2 two refl (omega arith) (omega arith) (omega arith, (omega arith, tt))

marshal_panics_example : (tpm2b_marshal 4 two_of_four (9 ∷ 9 ∷ 9 ∷ [])).0 ≡ panic
marshal_panics_example =
    marshal_panics 4 two_of_four two_of_four-IsSized (9 ∷ 9 ∷ 9 ∷ []) (omega arith) (omega arith)

from_bytes-get_buffer_example :
    (t : Tpm2b) × (from_bytes 4 two ≡ ok t) × IsSized 4 t × (get_buffer t ≡ ok two)
from_bytes-get_buffer_example =
    from_bytes-get_buffer 4 two (omega arith) (omega arith) (omega arith, (omega arith, tt))

five_in_four : from_bytes 1 two ≡ err size_error
five_in_four = from_bytes_too_long 1 two (inl (omega arith))

from_struct-to_struct_example :
    (t : Tpm2b) × (from_struct (prim 2) 4 258 ≡ ok t)
    × IsSized 4 t
    × (to_struct (prim 2) t ≡ ok 258)
from_struct-to_struct_example =
    from_struct-to_struct (prim-Lawful 2) 4 258 (omega arith)
      (omega (arith, length-to_be_bytes 2 258)) (omega (arith, length-to_be_bytes 2 258))

too_many_example : counted_unmarshal (prim 1) 2 4 0 (to_be_bytes 2 5 ++ two) ≡ err size_error
too_many_example = counted_unmarshal-too_many (prim 1) 2 4 5 0 two (omega arith) (omega arith)

seventy_thousand : from_be_bytes (to_be_bytes 4 70000) ≡ 70000
seventy_thousand = from_be_bytes-to_be_bytes 4 70000 (omega arith)

format1_parameter-for_example : AllReport session ErrorPosition.pos1
format1_parameter-for_example = format1_parameter-for session ErrorPosition.pos1
