-- ===== src/Base/Newtype.antt =====
-- Structs that wrap one number (base/src/lib.rs, base/src/constants.rs).
use tpm_rs.Derive.Fields.{field, derive}
use tpm_rs.Derive.Laws.{via_format, field-LawfulFragment, derive-Lawful}
use tpm_rs.Marshal.Core.{Marshalable, prim}
use tpm_rs.Marshal.Lawful.{Format, Lawful, prim_format, prim-Lawful}
use tpm_rs.Prelude.{ℕ, refl}

-- A tuple struct of one number, as the open enums are behind their attribute.
abbrev pub newtype : ℕ → Marshalable ℕ
newtype w = derive (λ (x : ℕ). x) (λ (x : ℕ). x) (field (prim w))

abbrev pub newtype_format : ℕ → Format ℕ
newtype_format w = via_format (λ (x : ℕ). x) (prim_format w)

pub newtype-Lawful : (w : ℕ) → Lawful (newtype w) (newtype_format w)
newtype-Lawful w =
    derive-Lawful (λ (x : ℕ). x) (λ (x : ℕ). x) (λ s. refl) (λ r. refl)
      (field-LawfulFragment (prim-Lawful w))
