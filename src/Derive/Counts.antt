-- ===== src/Derive/Counts.antt =====
-- The bound on a length field in the code generated for structs (marshalable-derive/src/lib.rs).
use tpm_rs.Prelude.{ℕ, ◌^◌, ◌<◌, ◌≡◌, refl, List, ◌++◌, lt→ltb}
use tpm_rs.Outcome.{err}
use tpm_rs.Errors.{size}
use tpm_rs.Marshal.Core.{Marshalable, to_be_bytes}
use tpm_rs.Marshal.Lawful.{prim-Lawful}
use tpm_rs.Derive.Fields.{counted_unmarshal, unmarshal_array}

-- A length field of w bytes whose value is above the number of entries of its array is refused
-- with Size, whatever follows and whatever the entries are.
pub counted_unmarshal-too_many :
    {A : Type 0} (m : Marshalable A) (w max count : ℕ) (d : A) (rest : List ℕ)
    → count < 256 ^ w
    → max < count
    → counted_unmarshal m w max d (to_be_bytes w count ++ rest) ≡ err size
unfolding counted_unmarshal unmarshal_array
counted_unmarshal-too_many m w max count d rest small many =
    rw ((prim-Lawful w).unmarshal_encode count rest small, unmarshal_array, lt→ltb max count many)
      refl
