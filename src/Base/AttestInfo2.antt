-- ===== src/Base/AttestInfo2.antt =====
-- base/src/lib.rs: what attestations are about: quotes, audits and NV contents.
use tpm_rs.Base.Buffers.{
  tpm2b_digest, tpm2b_digest_format, tpm2b_digest-Lawful, tpm2b_max_nv_buffer,
  tpm2b_max_nv_buffer_format, tpm2b_max_nv_buffer-Lawful, tpm2b_name, tpm2b_name_format,
  tpm2b_name-Lawful,
}
use tpm_rs.Base.Newtype.{newtype, newtype_format, newtype-Lawful}
use tpm_rs.Base.Pcr.{
  TpmlPcrSelection, tpml_pcr_selection, tpml_pcr_selection_format, tpml_pcr_selection-Lawful,
}
use tpm_rs.Derive.Fields.{field, ◌then◌, derive}
use tpm_rs.Derive.Laws.{
  pair_format, via_format, field-LawfulFragment, then-LawfulFragment, derive-Lawful,
}
use tpm_rs.Marshal.Core.{Marshalable, prim}
use tpm_rs.Marshal.Lawful.{Format, Lawful, prim_format, prim-Lawful}
use tpm_rs.Prelude.{ℕ, refl}
use tpm_rs.Tpm2b.Simple.{Tpm2b}

-- `TpmsQuoteInfo`
pub record TpmsQuoteInfo : Type 0 where
  pub pcr_select : TpmlPcrSelection
  pub pcr_digest : Tpm2b

abbrev pub tpms_quote_info_fields : TpmsQuoteInfo → (TpmlPcrSelection × Tpm2b)
tpms_quote_info_fields s = (s.pcr_select, s.pcr_digest)

abbrev pub tpms_quote_info_of : (TpmlPcrSelection × Tpm2b) → TpmsQuoteInfo
tpms_quote_info_of r = record { pcr_select = r.0; pcr_digest = r.1 }

unfoldable pub tpms_quote_info : Marshalable TpmsQuoteInfo
tpms_quote_info =
    derive tpms_quote_info_fields tpms_quote_info_of
      (field tpml_pcr_selection then field tpm2b_digest)

unfoldable pub tpms_quote_info_format : Format TpmsQuoteInfo
tpms_quote_info_format =
    via_format tpms_quote_info_fields (pair_format tpml_pcr_selection_format tpm2b_digest_format)

pub tpms_quote_info-Lawful : Lawful tpms_quote_info tpms_quote_info_format
unfolding tpms_quote_info tpms_quote_info_format
tpms_quote_info-Lawful =
    derive-Lawful tpms_quote_info_fields tpms_quote_info_of (λ s. refl) (λ r. refl)
      (then-LawfulFragment (field-LawfulFragment tpml_pcr_selection-Lawful)
        (field-LawfulFragment tpm2b_digest-Lawful))

-- `TpmsCommandAuditInfo`
pub record TpmsCommandAuditInfo : Type 0 where
  pub audit_counter : ℕ
  pub digest_alg : ℕ
  pub audit_digest : Tpm2b
  pub command_digest : Tpm2b

abbrev pub tpms_command_audit_info_fields : TpmsCommandAuditInfo → (ℕ × (ℕ × (Tpm2b × Tpm2b)))
tpms_command_audit_info_fields s =
    (s.audit_counter, (s.digest_alg, (s.audit_digest, s.command_digest)))

abbrev pub tpms_command_audit_info_of : (ℕ × (ℕ × (Tpm2b × Tpm2b))) → TpmsCommandAuditInfo
tpms_command_audit_info_of r = record {
  audit_counter = r.0;
  digest_alg = r.1.0;
  audit_digest = r.1.1.0;
  command_digest = r.1.1.1;
}

unfoldable pub tpms_command_audit_info : Marshalable TpmsCommandAuditInfo
tpms_command_audit_info =
    derive tpms_command_audit_info_fields tpms_command_audit_info_of
      (field (prim 8) then field (prim 2) then field tpm2b_digest then field tpm2b_digest)

unfoldable pub tpms_command_audit_info_format : Format TpmsCommandAuditInfo
tpms_command_audit_info_format = via_format tpms_command_audit_info_fields (
    pair_format (prim_format 8)
      (pair_format (prim_format 2) (pair_format tpm2b_digest_format tpm2b_digest_format)))

pub tpms_command_audit_info-Lawful : Lawful tpms_command_audit_info tpms_command_audit_info_format
unfolding tpms_command_audit_info tpms_command_audit_info_format
tpms_command_audit_info-Lawful =
    derive-Lawful tpms_command_audit_info_fields tpms_command_audit_info_of (λ s. refl) (λ r. refl)
      (then-LawfulFragment (field-LawfulFragment (prim-Lawful 8)) (
        then-LawfulFragment (field-LawfulFragment (prim-Lawful 2)) (
          then-LawfulFragment (field-LawfulFragment tpm2b_digest-Lawful)
            (field-LawfulFragment tpm2b_digest-Lawful))))

-- `TpmsSessionAuditInfo`
pub record TpmsSessionAuditInfo : Type 0 where
  pub exclusive_session : ℕ
  pub session_digest : Tpm2b

abbrev pub tpms_session_audit_info_fields : TpmsSessionAuditInfo → (ℕ × Tpm2b)
tpms_session_audit_info_fields s = (s.exclusive_session, s.session_digest)

abbrev pub tpms_session_audit_info_of : (ℕ × Tpm2b) → TpmsSessionAuditInfo
tpms_session_audit_info_of r = record { exclusive_session = r.0; session_digest = r.1 }

unfoldable pub tpms_session_audit_info : Marshalable TpmsSessionAuditInfo
tpms_session_audit_info =
    derive tpms_session_audit_info_fields tpms_session_audit_info_of
      (field (newtype 1) then field tpm2b_digest)

unfoldable pub tpms_session_audit_info_format : Format TpmsSessionAuditInfo
tpms_session_audit_info_format =
    via_format tpms_session_audit_info_fields (pair_format (newtype_format 1) tpm2b_digest_format)

pub tpms_session_audit_info-Lawful : Lawful tpms_session_audit_info tpms_session_audit_info_format
unfolding tpms_session_audit_info tpms_session_audit_info_format
tpms_session_audit_info-Lawful =
    derive-Lawful tpms_session_audit_info_fields tpms_session_audit_info_of (λ s. refl) (λ r. refl)
      (then-LawfulFragment (field-LawfulFragment (newtype-Lawful 1))
        (field-LawfulFragment tpm2b_digest-Lawful))

-- `TpmsNvCertifyInfo`
pub record TpmsNvCertifyInfo : Type 0 where
  pub index_name : Tpm2b
  pub offset : ℕ
  pub nv_contents : Tpm2b

abbrev pub tpms_nv_certify_info_fields : TpmsNvCertifyInfo → (Tpm2b × (ℕ × Tpm2b))
tpms_nv_certify_info_fields s = (s.index_name, (s.offset, s.nv_contents))

abbrev pub tpms_nv_certify_info_of : (Tpm2b × (ℕ × Tpm2b)) → TpmsNvCertifyInfo
tpms_nv_certify_info_of r = record { index_name = r.0; offset = r.1.0; nv_contents = r.1.1 }

unfoldable pub tpms_nv_certify_info : Marshalable TpmsNvCertifyInfo
tpms_nv_certify_info =
    derive tpms_nv_certify_info_fields tpms_nv_certify_info_of
      (field tpm2b_name then field (prim 2) then field tpm2b_max_nv_buffer)

unfoldable pub tpms_nv_certify_info_format : Format TpmsNvCertifyInfo
tpms_nv_certify_info_format =
    via_format tpms_nv_certify_info_fields
      (pair_format tpm2b_name_format (pair_format (prim_format 2) tpm2b_max_nv_buffer_format))

pub tpms_nv_certify_info-Lawful : Lawful tpms_nv_certify_info tpms_nv_certify_info_format
unfolding tpms_nv_certify_info tpms_nv_certify_info_format
tpms_nv_certify_info-Lawful =
    derive-Lawful tpms_nv_certify_info_fields tpms_nv_certify_info_of (λ s. refl) (λ r. refl)
      (then-LawfulFragment (field-LawfulFragment tpm2b_name-Lawful) (
        then-LawfulFragment (field-LawfulFragment (prim-Lawful 2))
          (field-LawfulFragment tpm2b_max_nv_buffer-Lawful)))
