-- ===== src/Base/HandleLists.antt =====
-- base/src/lib.rs: lists of handles, commands and curves.
use tpm_rs.Base.Newtype.{newtype, newtype_format, newtype-Lawful}
use tpm_rs.Base.Sizes.{tpm2_max_cap_handles, tpm2_max_cap_cc, tpm2_max_ecc_curves}
use tpm_rs.Derive.EntryLaws.{counted_format, counted-LawfulFragment}
use tpm_rs.Derive.Fields.{counted, derive}
use tpm_rs.Derive.Laws.{via_format, derive-Lawful}
use tpm_rs.Marshal.Core.{Marshalable}
use tpm_rs.Marshal.Lawful.{Format, Lawful}
use tpm_rs.Prelude.{ℕ, refl, List}

-- `TpmlHandle`
pub record TpmlHandle : Type 0 where
  pub count : ℕ
  pub handle : List ℕ

abbrev pub tpml_handle_fields : TpmlHandle → (ℕ × List ℕ)
tpml_handle_fields s = (s.count, s.handle)

abbrev pub tpml_handle_of : (ℕ × List ℕ) → TpmlHandle
tpml_handle_of r = record { count = r.0; handle = r.1 }

unfoldable pub tpml_handle : Marshalable TpmlHandle
tpml_handle =
    derive tpml_handle_fields tpml_handle_of (counted (newtype 4) 4 tpm2_max_cap_handles 0)

unfoldable pub tpml_handle_format : Format TpmlHandle
tpml_handle_format =
    via_format tpml_handle_fields (counted_format 4 tpm2_max_cap_handles 0 (newtype_format 4))

pub tpml_handle-Lawful : Lawful tpml_handle tpml_handle_format
unfolding tpml_handle tpml_handle_format
tpml_handle-Lawful =
    derive-Lawful tpml_handle_fields tpml_handle_of (λ s. refl) (λ r. refl)
      (counted-LawfulFragment 4 tpm2_max_cap_handles (newtype-Lawful 4) 0)

-- `TpmlCca`
pub record TpmlCca : Type 0 where
  pub count : ℕ
  pub command_attributes : List ℕ

abbrev pub tpml_cca_fields : TpmlCca → (ℕ × List ℕ)
tpml_cca_fields s = (s.count, s.command_attributes)

abbrev pub tpml_cca_of : (ℕ × List ℕ) → TpmlCca
tpml_cca_of r = record { count = r.0; command_attributes = r.1 }

unfoldable pub tpml_cca : Marshalable TpmlCca
tpml_cca = derive tpml_cca_fields tpml_cca_of (counted (newtype 4) 4 tpm2_max_cap_cc 0)

unfoldable pub tpml_cca_format : Format TpmlCca
tpml_cca_format = via_format tpml_cca_fields (counted_format 4 tpm2_max_cap_cc 0 (newtype_format 4))

pub tpml_cca-Lawful : Lawful tpml_cca tpml_cca_format
unfolding tpml_cca tpml_cca_format
tpml_cca-Lawful =
    derive-Lawful tpml_cca_fields tpml_cca_of (λ s. refl) (λ r. refl)
      (counted-LawfulFragment 4 tpm2_max_cap_cc (newtype-Lawful 4) 0)

-- `TpmlCc`
pub record TpmlCc : Type 0 where
  pub count : ℕ
  pub command_codes : List ℕ

abbrev pub tpml_cc_fields : TpmlCc → (ℕ × List ℕ)
tpml_cc_fields s = (s.count, s.command_codes)

abbrev pub tpml_cc_of : (ℕ × List ℕ) → TpmlCc
tpml_cc_of r = record { count = r.0; command_codes = r.1 }

unfoldable pub tpml_cc : Marshalable TpmlCc
tpml_cc = derive tpml_cc_fields tpml_cc_of (counted (newtype 4) 4 tpm2_max_cap_cc 0)

unfoldable pub tpml_cc_format : Format TpmlCc
tpml_cc_format = via_format tpml_cc_fields (counted_format 4 tpm2_max_cap_cc 0 (newtype_format 4))

pub tpml_cc-Lawful : Lawful tpml_cc tpml_cc_format
unfolding tpml_cc tpml_cc_format
tpml_cc-Lawful =
    derive-Lawful tpml_cc_fields tpml_cc_of (λ s. refl) (λ r. refl)
      (counted-LawfulFragment 4 tpm2_max_cap_cc (newtype-Lawful 4) 0)

-- `TpmlEccCurve`
pub record TpmlEccCurve : Type 0 where
  pub count : ℕ
  pub ecc_curves : List ℕ

abbrev pub tpml_ecc_curve_fields : TpmlEccCurve → (ℕ × List ℕ)
tpml_ecc_curve_fields s = (s.count, s.ecc_curves)

abbrev pub tpml_ecc_curve_of : (ℕ × List ℕ) → TpmlEccCurve
tpml_ecc_curve_of r = record { count = r.0; ecc_curves = r.1 }

unfoldable pub tpml_ecc_curve : Marshalable TpmlEccCurve
tpml_ecc_curve =
    derive tpml_ecc_curve_fields tpml_ecc_curve_of (counted (newtype 2) 4 tpm2_max_ecc_curves 0)

unfoldable pub tpml_ecc_curve_format : Format TpmlEccCurve
tpml_ecc_curve_format =
    via_format tpml_ecc_curve_fields (counted_format 4 tpm2_max_ecc_curves 0 (newtype_format 2))

pub tpml_ecc_curve-Lawful : Lawful tpml_ecc_curve tpml_ecc_curve_format
unfolding tpml_ecc_curve tpml_ecc_curve_format
tpml_ecc_curve-Lawful =
    derive-Lawful tpml_ecc_curve_fields tpml_ecc_curve_of (λ s. refl) (λ r. refl)
      (counted-LawfulFragment 4 tpm2_max_ecc_curves (newtype-Lawful 2) 0)
