-- ===== src/Base/Pcr.antt =====
-- base/src/lib.rs: PCR selections and lists of digests.
use tpm_rs.Base.Buffers.{
  tpm2b_digest_capacity, tpm2b_digest, tpm2b_digest_format, tpm2b_digest-Lawful,
}
use tpm_rs.Base.Limits.{tpm2_num_pcr_banks, tpm2_pcr_select_max, tpml_digest_max_digests}
use tpm_rs.Base.Newtype.{newtype, newtype_format, newtype-Lawful}
use tpm_rs.Base.Sizes.{tpm2_max_pcr_properties}
use tpm_rs.Derive.EntryLaws.{counted_format, counted-LawfulFragment}
use tpm_rs.Derive.Fields.{field, ◌then◌, counted, derive}
use tpm_rs.Derive.Laws.{
  pair_format, via_format, field-LawfulFragment, then-LawfulFragment, derive-Lawful,
}
use tpm_rs.Marshal.Core.{Marshalable, prim}
use tpm_rs.Marshal.Lawful.{Format, Lawful, prim_format, prim-Lawful}
use tpm_rs.Prelude.{ℕ, refl, List, replicate}
use tpm_rs.Tpm2b.Simple.{Tpm2b, default}

-- `TpmsPcrSelection`
pub record TpmsPcrSelection : Type 0 where
  pub hash : ℕ
  pub sizeof_select : ℕ
  pub pcr_select : List ℕ

abbrev pub tpms_pcr_selection_fields : TpmsPcrSelection → (ℕ × (ℕ × List ℕ))
tpms_pcr_selection_fields s = (s.hash, (s.sizeof_select, s.pcr_select))

abbrev pub tpms_pcr_selection_of : (ℕ × (ℕ × List ℕ)) → TpmsPcrSelection
tpms_pcr_selection_of r = record { hash = r.0; sizeof_select = r.1.0; pcr_select = r.1.1 }

unfoldable pub tpms_pcr_selection : Marshalable TpmsPcrSelection
tpms_pcr_selection =
    derive tpms_pcr_selection_fields tpms_pcr_selection_of
      (field (newtype 2) then counted (prim 1) 1 tpm2_pcr_select_max 0)

unfoldable pub tpms_pcr_selection_format : Format TpmsPcrSelection
tpms_pcr_selection_format =
    via_format tpms_pcr_selection_fields
      (pair_format (newtype_format 2) (counted_format 1 tpm2_pcr_select_max 0 (prim_format 1)))

pub tpms_pcr_selection-Lawful : Lawful tpms_pcr_selection tpms_pcr_selection_format
unfolding tpms_pcr_selection tpms_pcr_selection_format
tpms_pcr_selection-Lawful =
    derive-Lawful tpms_pcr_selection_fields tpms_pcr_selection_of (λ s. refl) (λ r. refl)
      (then-LawfulFragment (field-LawfulFragment (newtype-Lawful 2))
        (counted-LawfulFragment 1 tpm2_pcr_select_max (prim-Lawful 1) 0))

-- `Default` of `TpmsPcrSelection`.
abbrev pub tpms_pcr_selection_default : TpmsPcrSelection
tpms_pcr_selection_default = record {
  hash = 0;
  sizeof_select = 0;
  pcr_select = replicate tpm2_pcr_select_max 0;
}

-- `TpmlPcrSelection`
pub record TpmlPcrSelection : Type 0 where
  pub count : ℕ
  pub pcr_selections : List TpmsPcrSelection

abbrev pub tpml_pcr_selection_fields : TpmlPcrSelection → (ℕ × List TpmsPcrSelection)
tpml_pcr_selection_fields s = (s.count, s.pcr_selections)

abbrev pub tpml_pcr_selection_of : (ℕ × List TpmsPcrSelection) → TpmlPcrSelection
tpml_pcr_selection_of r = record { count = r.0; pcr_selections = r.1 }

unfoldable pub tpml_pcr_selection : Marshalable TpmlPcrSelection
tpml_pcr_selection =
    derive tpml_pcr_selection_fields tpml_pcr_selection_of
      (counted tpms_pcr_selection 4 tpm2_num_pcr_banks tpms_pcr_selection_default)

unfoldable pub tpml_pcr_selection_format : Format TpmlPcrSelection
tpml_pcr_selection_format =
    via_format tpml_pcr_selection_fields
      (counted_format 4 tpm2_num_pcr_banks tpms_pcr_selection_default tpms_pcr_selection_format)

pub tpml_pcr_selection-Lawful : Lawful tpml_pcr_selection tpml_pcr_selection_format
unfolding tpml_pcr_selection tpml_pcr_selection_format
tpml_pcr_selection-Lawful =
    derive-Lawful tpml_pcr_selection_fields tpml_pcr_selection_of (λ s. refl) (λ r. refl)
      (counted-LawfulFragment 4 tpm2_num_pcr_banks tpms_pcr_selection-Lawful
        tpms_pcr_selection_default)

-- `TpmlDigest`
pub record TpmlDigest : Type 0 where
  pub count : ℕ
  pub digests : List Tpm2b

abbrev pub tpml_digest_fields : TpmlDigest → (ℕ × List Tpm2b)
tpml_digest_fields s = (s.count, s.digests)

abbrev pub tpml_digest_of : (ℕ × List Tpm2b) → TpmlDigest
tpml_digest_of r = record { count = r.0; digests = r.1 }

unfoldable pub tpml_digest : Marshalable TpmlDigest
tpml_digest =
    derive tpml_digest_fields tpml_digest_of
      (counted tpm2b_digest 4 tpml_digest_max_digests (default tpm2b_digest_capacity))

unfoldable pub tpml_digest_format : Format TpmlDigest
tpml_digest_format =
    via_format tpml_digest_fields
      (counted_format 4 tpml_digest_max_digests (default tpm2b_digest_capacity) tpm2b_digest_format)

pub tpml_digest-Lawful : Lawful tpml_digest tpml_digest_format
unfolding tpml_digest tpml_digest_format
tpml_digest-Lawful =
    derive-Lawful tpml_digest_fields tpml_digest_of (λ s. refl) (λ r. refl)
      (counted-LawfulFragment 4 tpml_digest_max_digests tpm2b_digest-Lawful
        (default tpm2b_digest_capacity))

-- `TpmsTaggedPcrSelect`
pub record TpmsTaggedPcrSelect : Type 0 where
  pub tag : ℕ
  pub size_of_select : ℕ
  pub pcr_select : List ℕ

abbrev pub tpms_tagged_pcr_select_fields : TpmsTaggedPcrSelect → (ℕ × (ℕ × List ℕ))
tpms_tagged_pcr_select_fields s = (s.tag, (s.size_of_select, s.pcr_select))

abbrev pub tpms_tagged_pcr_select_of : (ℕ × (ℕ × List ℕ)) → TpmsTaggedPcrSelect
tpms_tagged_pcr_select_of r = record { tag = r.0; size_of_select = r.1.0; pcr_select = r.1.1 }

unfoldable pub tpms_tagged_pcr_select : Marshalable TpmsTaggedPcrSelect
tpms_tagged_pcr_select =
    derive tpms_tagged_pcr_select_fields tpms_tagged_pcr_select_of
      (field (newtype 4) then counted (prim 1) 1 tpm2_pcr_select_max 0)

unfoldable pub tpms_tagged_pcr_select_format : Format TpmsTaggedPcrSelect
tpms_tagged_pcr_select_format =
    via_format tpms_tagged_pcr_select_fields
      (pair_format (newtype_format 4) (counted_format 1 tpm2_pcr_select_max 0 (prim_format 1)))

pub tpms_tagged_pcr_select-Lawful : Lawful tpms_tagged_pcr_select tpms_tagged_pcr_select_format
unfolding tpms_tagged_pcr_select tpms_tagged_pcr_select_format
tpms_tagged_pcr_select-Lawful =
    derive-Lawful tpms_tagged_pcr_select_fields tpms_tagged_pcr_select_of (λ s. refl) (λ r. refl)
      (then-LawfulFragment (field-LawfulFragment (newtype-Lawful 4))
        (counted-LawfulFragment 1 tpm2_pcr_select_max (prim-Lawful 1) 0))

-- `Default` of `TpmsTaggedPcrSelect`.
abbrev pub tpms_tagged_pcr_select_default : TpmsTaggedPcrSelect
tpms_tagged_pcr_select_default = record {
  tag = 0;
  size_of_select = 0;
  pcr_select = replicate tpm2_pcr_select_max 0;
}

-- `TpmlTaggedPcrProperty`
pub record TpmlTaggedPcrProperty : Type 0 where
  pub count : ℕ
  pub pcr_property : List TpmsTaggedPcrSelect

abbrev pub tpml_tagged_pcr_property_fields : TpmlTaggedPcrProperty → (ℕ × List TpmsTaggedPcrSelect)
tpml_tagged_pcr_property_fields s = (s.count, s.pcr_property)

abbrev pub tpml_tagged_pcr_property_of : (ℕ × List TpmsTaggedPcrSelect) → TpmlTaggedPcrProperty
tpml_tagged_pcr_property_of r = record { count = r.0; pcr_property = r.1 }

unfoldable pub tpml_tagged_pcr_property : Marshalable TpmlTaggedPcrProperty
tpml_tagged_pcr_property =
    derive tpml_tagged_pcr_property_fields tpml_tagged_pcr_property_of
      (counted tpms_tagged_pcr_select 4 tpm2_max_pcr_properties tpms_tagged_pcr_select_default)

unfoldable pub tpml_tagged_pcr_property_format : Format TpmlTaggedPcrProperty
tpml_tagged_pcr_property_format = via_format tpml_tagged_pcr_property_fields (
    counted_format 4 tpm2_max_pcr_properties tpms_tagged_pcr_select_default
      tpms_tagged_pcr_select_format)

pub tpml_tagged_pcr_property-Lawful :
    Lawful tpml_tagged_pcr_property tpml_tagged_pcr_property_format
unfolding tpml_tagged_pcr_property tpml_tagged_pcr_property_format
tpml_tagged_pcr_property-Lawful =
    derive-Lawful tpml_tagged_pcr_property_fields tpml_tagged_pcr_property_of (λ s. refl)
      (λ r. refl)
      (counted-LawfulFragment 4 tpm2_max_pcr_properties tpms_tagged_pcr_select-Lawful
        tpms_tagged_pcr_select_default)
