-- ===== src/Base/AttestUnion.antt =====
-- base/src/lib.rs: the union of attested data.
use tpm_rs.Base.AttestInfo.{
  TpmsTimeAttestInfo, tpms_time_attest_info, tpms_time_attest_info_format,
  tpms_time_attest_info-Lawful, TpmsCertifyInfo, tpms_certify_info, tpms_certify_info_format,
  tpms_certify_info-Lawful, TpmsCreationInfo, tpms_creation_info, tpms_creation_info_format,
  tpms_creation_info-Lawful,
}
use tpm_rs.Base.AttestInfo2.{
  TpmsQuoteInfo, tpms_quote_info, tpms_quote_info_format, tpms_quote_info-Lawful,
  TpmsCommandAuditInfo, tpms_command_audit_info, tpms_command_audit_info_format,
  tpms_command_audit_info-Lawful, TpmsSessionAuditInfo, tpms_session_audit_info,
  tpms_session_audit_info_format, tpms_session_audit_info-Lawful, TpmsNvCertifyInfo,
  tpms_nv_certify_info, tpms_nv_certify_info_format, tpms_nv_certify_info-Lawful,
}
use tpm_rs.Base.Constants.Tags.{TpmSt, tpm_st_number}
use tpm_rs.Derive.Enum.{MarshalableVariant, no_variants, variant, derive_variant, derive_enum}
use tpm_rs.Derive.EnumLaws.{no_format, sum_format, no_variants-Lawful, variant-Lawful}
use tpm_rs.Derive.VariantLaws.{
  LawfulVariant, enum_format, derive_variant-Lawful, derive_enum-Lawful,
}
use tpm_rs.Derive.Fields.{field}
use tpm_rs.Derive.Laws.{via_format, field-LawfulFragment}
use tpm_rs.Marshal.Core.{Marshalable}
use tpm_rs.Marshal.Lawful.{Format, Lawful}
use tpm_rs.Prelude.{◌≡◌, refl, arith, ◌⊎◌, inl, inr}

-- `TpmuAttest`
pub data TpmuAttest : Type 0 where
  certify : TpmsCertifyInfo → TpmuAttest
  creation : TpmsCreationInfo → TpmuAttest
  quote : TpmsQuoteInfo → TpmuAttest
  command_audit : TpmsCommandAuditInfo → TpmuAttest
  session_audit : TpmsSessionAuditInfo → TpmuAttest
  time : TpmsTimeAttestInfo → TpmuAttest
  nv : TpmsNvCertifyInfo → TpmuAttest

abbrev pub TpmuAttestSum : Type 0
TpmuAttestSum =
    TpmsCertifyInfo
    ⊎ (TpmsCreationInfo
        ⊎ (TpmsQuoteInfo
            ⊎ (TpmsCommandAuditInfo
                ⊎ (TpmsSessionAuditInfo ⊎ (TpmsTimeAttestInfo ⊎ (TpmsNvCertifyInfo ⊎ ⊥))))))

abbrev pub tpmu_attest_sum : TpmuAttest → TpmuAttestSum
tpmu_attest_sum (TpmuAttest.certify x) = inl x
tpmu_attest_sum (TpmuAttest.creation x) = inr (inl x)
tpmu_attest_sum (TpmuAttest.quote x) = inr (inr (inl x))
tpmu_attest_sum (TpmuAttest.command_audit x) = inr (inr (inr (inl x)))
tpmu_attest_sum (TpmuAttest.session_audit x) = inr (inr (inr (inr (inl x))))
tpmu_attest_sum (TpmuAttest.time x) = inr (inr (inr (inr (inr (inl x)))))
tpmu_attest_sum (TpmuAttest.nv x) = inr (inr (inr (inr (inr (inr (inl x))))))

abbrev pub tpmu_attest_of : TpmuAttestSum → TpmuAttest
tpmu_attest_of (inl x) = TpmuAttest.certify x
tpmu_attest_of (inr (inl x)) = TpmuAttest.creation x
tpmu_attest_of (inr (inr (inl x))) = TpmuAttest.quote x
tpmu_attest_of (inr (inr (inr (inl x)))) = TpmuAttest.command_audit x
tpmu_attest_of (inr (inr (inr (inr (inl x))))) = TpmuAttest.session_audit x
tpmu_attest_of (inr (inr (inr (inr (inr (inl x)))))) = TpmuAttest.time x
tpmu_attest_of (inr (inr (inr (inr (inr (inr (inl x))))))) = TpmuAttest.nv x
tpmu_attest_of (inr (inr (inr (inr (inr (inr (inr e))))))) = absurd e

tpmu_attest_of-sum : (s : TpmuAttest) → tpmu_attest_of (tpmu_attest_sum s) ≡ s
tpmu_attest_of-sum (TpmuAttest.certify x) = refl
tpmu_attest_of-sum (TpmuAttest.creation x) = refl
tpmu_attest_of-sum (TpmuAttest.quote x) = refl
tpmu_attest_of-sum (TpmuAttest.command_audit x) = refl
tpmu_attest_of-sum (TpmuAttest.session_audit x) = refl
tpmu_attest_of-sum (TpmuAttest.time x) = refl
tpmu_attest_of-sum (TpmuAttest.nv x) = refl

tpmu_attest_sum-of : (e : TpmuAttestSum) → tpmu_attest_sum (tpmu_attest_of e) ≡ e
tpmu_attest_sum-of (inl x) = refl
tpmu_attest_sum-of (inr (inl x)) = refl
tpmu_attest_sum-of (inr (inr (inl x))) = refl
tpmu_attest_sum-of (inr (inr (inr (inl x)))) = refl
tpmu_attest_sum-of (inr (inr (inr (inr (inl x))))) = refl
tpmu_attest_sum-of (inr (inr (inr (inr (inr (inl x)))))) = refl
tpmu_attest_sum-of (inr (inr (inr (inr (inr (inr (inl x))))))) = refl
tpmu_attest_sum-of (inr (inr (inr (inr (inr (inr (inr e))))))) = absurd e

unfoldable pub tpmu_attest_variant : MarshalableVariant TpmuAttest
tpmu_attest_variant = derive_variant tpmu_attest_sum tpmu_attest_of (
    variant (tpm_st_number TpmSt.attest_certify) (field tpms_certify_info) (
      variant (tpm_st_number TpmSt.attest_creation) (field tpms_creation_info) (
        variant (tpm_st_number TpmSt.attest_quote) (field tpms_quote_info) (
          variant (tpm_st_number TpmSt.attest_command_audit) (field tpms_command_audit_info) (
            variant (tpm_st_number TpmSt.attest_session_audit) (field tpms_session_audit_info) (
              variant (tpm_st_number TpmSt.attest_time) (field tpms_time_attest_info) (
                variant (tpm_st_number TpmSt.attest_nv) (field tpms_nv_certify_info)
                  no_variants)))))))

unfoldable pub tpmu_attest : Marshalable TpmuAttest
tpmu_attest = derive_enum 2 tpmu_attest_variant

unfoldable pub tpmu_attest_variant_format : Format TpmuAttest
tpmu_attest_variant_format = via_format tpmu_attest_sum (
    sum_format tpms_certify_info_format (
      sum_format tpms_creation_info_format (
        sum_format tpms_quote_info_format (
          sum_format tpms_command_audit_info_format (
            sum_format tpms_session_audit_info_format (
              sum_format tpms_time_attest_info_format
                (sum_format tpms_nv_certify_info_format no_format)))))))

unfoldable pub tpmu_attest_format : Format TpmuAttest
tpmu_attest_format = enum_format 2 tpmu_attest_variant tpmu_attest_variant_format

pub tpmu_attest_variant-Lawful : LawfulVariant 2 tpmu_attest_variant tpmu_attest_variant_format
unfolding tpmu_attest_variant tpmu_attest_variant_format
tpmu_attest_variant-Lawful =
    derive_variant-Lawful tpmu_attest_sum tpmu_attest_of tpmu_attest_of-sum tpmu_attest_sum-of
      (variant-Lawful _ _ (field-LawfulFragment tpms_certify_info-Lawful)
        (variant-Lawful _ _ (field-LawfulFragment tpms_creation_info-Lawful)
          (variant-Lawful _ _ (field-LawfulFragment tpms_quote_info-Lawful)
            (variant-Lawful _ _ (field-LawfulFragment tpms_command_audit_info-Lawful)
              (variant-Lawful _ _ (field-LawfulFragment tpms_session_audit_info-Lawful)
                (variant-Lawful _ _ (field-LawfulFragment tpms_time_attest_info-Lawful)
                  (variant-Lawful _ _ (field-LawfulFragment tpms_nv_certify_info-Lawful)
                    no_variants-Lawful (omega arith))
                  (omega arith))
                (omega arith))
              (omega arith))
            (omega arith))
          (omega arith))
        (omega arith))
      2 (omega arith)

pub tpmu_attest-Lawful : Lawful tpmu_attest tpmu_attest_format
unfolding tpmu_attest tpmu_attest_format
tpmu_attest-Lawful = derive_enum-Lawful tpmu_attest_variant-Lawful
