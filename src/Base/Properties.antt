-- ===== src/Base/Properties.antt =====
-- base/src/lib.rs: tagged properties and the lists of them.
use tpm_rs.Base.Newtype.{newtype, newtype_format, newtype-Lawful}
use tpm_rs.Base.Sizes.{tpm2_max_cap_algs, tpm2_max_tpm_properties}
use tpm_rs.Derive.EntryLaws.{counted_format, counted-LawfulFragment}
use tpm_rs.Derive.Fields.{field, ◌then◌, counted, derive}
use tpm_rs.Derive.Laws.{
  pair_format, via_format, field-LawfulFragment, then-LawfulFragment, derive-Lawful,
}
use tpm_rs.Marshal.Core.{Marshalable, prim}
use tpm_rs.Marshal.Lawful.{Format, Lawful, prim_format, prim-Lawful}
use tpm_rs.Prelude.{ℕ, refl, List}

-- `TpmsAlgProperty`
pub record TpmsAlgProperty : Type 0 where
  pub alg : ℕ
  pub alg_properties : ℕ

abbrev pub tpms_alg_property_fields : TpmsAlgProperty → (ℕ × ℕ)
tpms_alg_property_fields s = (s.alg, s.alg_properties)

abbrev pub tpms_alg_property_of : (ℕ × ℕ) → TpmsAlgProperty
tpms_alg_property_of r = record { alg = r.0; alg_properties = r.1 }

unfoldable pub tpms_alg_property : Marshalable TpmsAlgProperty
tpms_alg_property =
    derive tpms_alg_property_fields tpms_alg_property_of (field (newtype 2) then field (newtype 4))

unfoldable pub tpms_alg_property_format : Format TpmsAlgProperty
tpms_alg_property_format =
    via_format tpms_alg_property_fields (pair_format (newtype_format 2) (newtype_format 4))

pub tpms_alg_property-Lawful : Lawful tpms_alg_property tpms_alg_property_format
unfolding tpms_alg_property tpms_alg_property_format
tpms_alg_property-Lawful =
    derive-Lawful tpms_alg_property_fields tpms_alg_property_of (λ s. refl) (λ r. refl)
      (then-LawfulFragment (field-LawfulFragment (newtype-Lawful 2))
        (field-LawfulFragment (newtype-Lawful 4)))

-- `Default` of `TpmsAlgProperty`.
abbrev pub tpms_alg_property_default : TpmsAlgProperty
tpms_alg_property_default = record { alg = 0; alg_properties = 0 }

-- `TpmlAlgProperty`
pub record TpmlAlgProperty : Type 0 where
  pub count : ℕ
  pub alg_properties : List TpmsAlgProperty

abbrev pub tpml_alg_property_fields : TpmlAlgProperty → (ℕ × List TpmsAlgProperty)
tpml_alg_property_fields s = (s.count, s.alg_properties)

abbrev pub tpml_alg_property_of : (ℕ × List TpmsAlgProperty) → TpmlAlgProperty
tpml_alg_property_of r = record { count = r.0; alg_properties = r.1 }

unfoldable pub tpml_alg_property : Marshalable TpmlAlgProperty
tpml_alg_property =
    derive tpml_alg_property_fields tpml_alg_property_of
      (counted tpms_alg_property 4 tpm2_max_cap_algs tpms_alg_property_default)

unfoldable pub tpml_alg_property_format : Format TpmlAlgProperty
tpml_alg_property_format =
    via_format tpml_alg_property_fields
      (counted_format 4 tpm2_max_cap_algs tpms_alg_property_default tpms_alg_property_format)

pub tpml_alg_property-Lawful : Lawful tpml_alg_property tpml_alg_property_format
unfolding tpml_alg_property tpml_alg_property_format
tpml_alg_property-Lawful =
    derive-Lawful tpml_alg_property_fields tpml_alg_property_of (λ s. refl) (λ r. refl)
      (counted-LawfulFragment 4 tpm2_max_cap_algs tpms_alg_property-Lawful
        tpms_alg_property_default)

-- `TpmsTaggedProperty`
pub record TpmsTaggedProperty : Type 0 where
  pub property : ℕ
  pub value : ℕ

abbrev pub tpms_tagged_property_fields : TpmsTaggedProperty → (ℕ × ℕ)
tpms_tagged_property_fields s = (s.property, s.value)

abbrev pub tpms_tagged_property_of : (ℕ × ℕ) → TpmsTaggedProperty
tpms_tagged_property_of r = record { property = r.0; value = r.1 }

unfoldable pub tpms_tagged_property : Marshalable TpmsTaggedProperty
tpms_tagged_property =
    derive tpms_tagged_property_fields tpms_tagged_property_of
      (field (newtype 4) then field (prim 4))

unfoldable pub tpms_tagged_property_format : Format TpmsTaggedProperty
tpms_tagged_property_format =
    via_format tpms_tagged_property_fields (pair_format (newtype_format 4) (prim_format 4))

pub tpms_tagged_property-Lawful : Lawful tpms_tagged_property tpms_tagged_property_format
unfolding tpms_tagged_property tpms_tagged_property_format
tpms_tagged_property-Lawful =
    derive-Lawful tpms_tagged_property_fields tpms_tagged_property_of (λ s. refl) (λ r. refl)
      (then-LawfulFragment (field-LawfulFragment (newtype-Lawful 4))
        (field-LawfulFragment (prim-Lawful 4)))

-- `Default` of `TpmsTaggedProperty`.
abbrev pub tpms_tagged_property_default : TpmsTaggedProperty
tpms_tagged_property_default = record { property = 0; value = 0 }

-- `TpmlTaggedTpmProperty`
pub record TpmlTaggedTpmProperty : Type 0 where
  pub count : ℕ
  pub tpm_property : List TpmsTaggedProperty

abbrev pub tpml_tagged_tpm_property_fields : TpmlTaggedTpmProperty → (ℕ × List TpmsTaggedProperty)
tpml_tagged_tpm_property_fields s = (s.count, s.tpm_property)

abbrev pub tpml_tagged_tpm_property_of : (ℕ × List TpmsTaggedProperty) → TpmlTaggedTpmProperty
tpml_tagged_tpm_property_of r = record { count = r.0; tpm_property = r.1 }

unfoldable pub tpml_tagged_tpm_property : Marshalable TpmlTaggedTpmProperty
tpml_tagged_tpm_property =
    derive tpml_tagged_tpm_property_fields tpml_tagged_tpm_property_of
      (counted tpms_tagged_property 4 tpm2_max_tpm_properties tpms_tagged_property_default)

unfoldable pub tpml_tagged_tpm_property_format : Format TpmlTaggedTpmProperty
tpml_tagged_tpm_property_format = via_format tpml_tagged_tpm_property_fields (
    counted_format 4 tpm2_max_tpm_properties tpms_tagged_property_default
      tpms_tagged_property_format)

pub tpml_tagged_tpm_property-Lawful :
    Lawful tpml_tagged_tpm_property tpml_tagged_tpm_property_format
unfolding tpml_tagged_tpm_property tpml_tagged_tpm_property_format
tpml_tagged_tpm_property-Lawful =
    derive-Lawful tpml_tagged_tpm_property_fields tpml_tagged_tpm_property_of (λ s. refl)
      (λ r. refl)
      (counted-LawfulFragment 4 tpm2_max_tpm_properties tpms_tagged_property-Lawful
        tpms_tagged_property_default)
