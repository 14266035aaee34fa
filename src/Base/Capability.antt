-- ===== src/Base/Capability.antt =====
-- base/src/lib.rs: the union of capabilities.
use tpm_rs.Base.Constants.Tags.{TpmCap, tpm_cap_number}
use tpm_rs.Base.HandleLists.{
  TpmlHandle, tpml_handle, tpml_handle_format, tpml_handle-Lawful, TpmlCca, tpml_cca,
  tpml_cca_format, tpml_cca-Lawful, TpmlCc, tpml_cc, tpml_cc_format, tpml_cc-Lawful, TpmlEccCurve,
  tpml_ecc_curve, tpml_ecc_curve_format, tpml_ecc_curve-Lawful,
}
use tpm_rs.Base.Hash.{
  TpmlTaggedPolicy, tpml_tagged_policy, tpml_tagged_policy_format, tpml_tagged_policy-Lawful,
}
use tpm_rs.Base.Pcr.{
  TpmlPcrSelection, tpml_pcr_selection, tpml_pcr_selection_format, tpml_pcr_selection-Lawful,
  TpmlTaggedPcrProperty, tpml_tagged_pcr_property, tpml_tagged_pcr_property_format,
  tpml_tagged_pcr_property-Lawful,
}
use tpm_rs.Base.Properties.{
  TpmlAlgProperty, tpml_alg_property, tpml_alg_property_format, tpml_alg_property-Lawful,
  TpmlTaggedTpmProperty, tpml_tagged_tpm_property, tpml_tagged_tpm_property_format,
  tpml_tagged_tpm_property-Lawful,
}
use tpm_rs.Derive.Enum.{MarshalableVariant, no_variants, variant, derive_variant, derive_enum}
use tpm_rs.Derive.EnumLaws.{no_format, sum_format, no_variants-Lawful, variant-Lawful}
use tpm_rs.Derive.VariantLaws.{
  LawfulVariant, enum_format, derive_variant-Lawful, derive_enum-Lawful,
}
use tpm_rs.Derive.Fields.{field}
use tpm_rs.Derive.Laws.{via_format, field-LawfulFragment}
use tpm_rs.Marshal.Core.{Marshalable}
use tpm_rs.Marshal.Lawful.{Format, Lawful}
use tpm_rs.Prelude.{◌≡◌, refl, arith, ◌⊎◌, inl, inr}

-- `TpmsCapabilityData`
pub data TpmsCapabilityData : Type 0 where
  algorithms : TpmlAlgProperty → TpmsCapabilityData
  handles : TpmlHandle → TpmsCapabilityData
  command : TpmlCca → TpmsCapabilityData
  pp_commands : TpmlCc → TpmsCapabilityData
  audit_commands : TpmlCc → TpmsCapabilityData
  assigned_pcr : TpmlPcrSelection → TpmsCapabilityData
  tpm_properties : TpmlTaggedTpmProperty → TpmsCapabilityData
  pcr_properties : TpmlTaggedPcrProperty → TpmsCapabilityData
  ecc_curves : TpmlEccCurve → TpmsCapabilityData
  auth_policies : TpmlTaggedPolicy → TpmsCapabilityData

abbrev pub TpmsCapabilityDataSum : Type 0
TpmsCapabilityDataSum =
    TpmlAlgProperty
    ⊎ (TpmlHandle
        ⊎ (TpmlCca
            ⊎ (TpmlCc
                ⊎ (TpmlCc
                    ⊎ (TpmlPcrSelection
                        ⊎ (TpmlTaggedTpmProperty
                            ⊎ (TpmlTaggedPcrProperty
                                ⊎ (TpmlEccCurve ⊎ (TpmlTaggedPolicy ⊎ ⊥)))))))))

abbrev pub tpms_capability_data_sum : TpmsCapabilityData → TpmsCapabilityDataSum
tpms_capability_data_sum (TpmsCapabilityData.algorithms x) = inl x
tpms_capability_data_sum (TpmsCapabilityData.handles x) = inr (inl x)
tpms_capability_data_sum (TpmsCapabilityData.command x) = inr (inr (inl x))
tpms_capability_data_sum (TpmsCapabilityData.pp_commands x) = inr (inr (inr (inl x)))
tpms_capability_data_sum (TpmsCapabilityData.audit_commands x) = inr (inr (inr (inr (inl x))))
tpms_capability_data_sum (TpmsCapabilityData.assigned_pcr x) = inr (inr (inr (inr (inr (inl x)))))
tpms_capability_data_sum (TpmsCapabilityData.tpm_properties x) =
    inr (inr (inr (inr (inr (inr (inl x))))))
tpms_capability_data_sum (TpmsCapabilityData.pcr_properties x) =
    inr (inr (inr (inr (inr (inr (inr (inl x)))))))
tpms_capability_data_sum (TpmsCapabilityData.ecc_curves x) =
    inr (inr (inr (inr (inr (inr (inr (inr (inl x))))))))
tpms_capability_data_sum (TpmsCapabilityData.auth_policies x) =
    inr (inr (inr (inr (inr (inr (inr (inr (inr (inl x)))))))))

abbrev pub tpms_capability_data_of : TpmsCapabilityDataSum → TpmsCapabilityData
tpms_capability_data_of (inl x) = TpmsCapabilityData.algorithms x
tpms_capability_data_of (inr (inl x)) = TpmsCapabilityData.handles x
tpms_capability_data_of (inr (inr (inl x))) = TpmsCapabilityData.command x
tpms_capability_data_of (inr (inr (inr (inl x)))) = TpmsCapabilityData.pp_commands x
tpms_capability_data_of (inr (inr (inr (inr (inl x))))) = TpmsCapabilityData.audit_commands x
tpms_capability_data_of (inr (inr (inr (inr (inr (inl x)))))) = TpmsCapabilityData.assigned_pcr x
tpms_capability_data_of (inr (inr (inr (inr (inr (inr (inl x))))))) =
    TpmsCapabilityData.tpm_properties x
tpms_capability_data_of (inr (inr (inr (inr (inr (inr (inr (inl x)))))))) =
    TpmsCapabilityData.pcr_properties x
tpms_capability_data_of (inr (inr (inr (inr (inr (inr (inr (inr (inl x))))))))) =
    TpmsCapabilityData.ecc_curves x
tpms_capability_data_of (inr (inr (inr (inr (inr (inr (inr (inr (inr (inl x)))))))))) =
    TpmsCapabilityData.auth_policies x
tpms_capability_data_of (inr (inr (inr (inr (inr (inr (inr (inr (inr (inr e)))))))))) = absurd e

tpms_capability_data_of-sum :
    (s : TpmsCapabilityData) → tpms_capability_data_of (tpms_capability_data_sum s) ≡ s
tpms_capability_data_of-sum (TpmsCapabilityData.algorithms x) = refl
tpms_capability_data_of-sum (TpmsCapabilityData.handles x) = refl
tpms_capability_data_of-sum (TpmsCapabilityData.command x) = refl
tpms_capability_data_of-sum (TpmsCapabilityData.pp_commands x) = refl
tpms_capability_data_of-sum (TpmsCapabilityData.audit_commands x) = refl
tpms_capability_data_of-sum (TpmsCapabilityData.assigned_pcr x) = refl
tpms_capability_data_of-sum (TpmsCapabilityData.tpm_properties x) = refl
tpms_capability_data_of-sum (TpmsCapabilityData.pcr_properties x) = refl
tpms_capability_data_of-sum (TpmsCapabilityData.ecc_curves x) = refl
tpms_capability_data_of-sum (TpmsCapabilityData.auth_policies x) = refl

tpms_capability_data_sum-of :
    (e : TpmsCapabilityDataSum) → tpms_capability_data_sum (tpms_capability_data_of e) ≡ e
tpms_capability_data_sum-of (inl x) = refl
tpms_capability_data_sum-of (inr (inl x)) = refl
tpms_capability_data_sum-of (inr (inr (inl x))) = refl
tpms_capability_data_sum-of (inr (inr (inr (inl x)))) = refl
tpms_capability_data_sum-of (inr (inr (inr (inr (inl x))))) = refl
tpms_capability_data_sum-of (inr (inr (inr (inr (inr (inl x)))))) = refl
tpms_capability_data_sum-of (inr (inr (inr (inr (inr (inr (inl x))))))) = refl
tpms_capability_data_sum-of (inr (inr (inr (inr (inr (inr (inr (inl x)))))))) = refl
tpms_capability_data_sum-of (inr (inr (inr (inr (inr (inr (inr (inr (inl x))))))))) = refl
tpms_capability_data_sum-of (inr (inr (inr (inr (inr (inr (inr (inr (inr (inl x)))))))))) = refl
tpms_capability_data_sum-of (inr (inr (inr (inr (inr (inr (inr (inr (inr (inr e)))))))))) = absurd e

unfoldable pub tpms_capability_data_variant : MarshalableVariant TpmsCapabilityData
tpms_capability_data_variant = derive_variant tpms_capability_data_sum tpms_capability_data_of (
    variant (tpm_cap_number TpmCap.algs) (field tpml_alg_property) (
      variant (tpm_cap_number TpmCap.handles) (field tpml_handle) (
        variant (tpm_cap_number TpmCap.commands) (field tpml_cca) (
          variant (tpm_cap_number TpmCap.pp_commands) (field tpml_cc) (
            variant (tpm_cap_number TpmCap.audit_commands) (field tpml_cc) (
              variant (tpm_cap_number TpmCap.pc_rs) (field tpml_pcr_selection) (
                variant (tpm_cap_number TpmCap.tpm_properties) (field tpml_tagged_tpm_property) (
                  variant (tpm_cap_number TpmCap.pcr_properties) (field tpml_tagged_pcr_property) (
                    variant (tpm_cap_number TpmCap.ecc_curves) (field tpml_ecc_curve) (
                      variant (tpm_cap_number TpmCap.auth_policies) (field tpml_tagged_policy)
                        no_variants))))))))))

unfoldable pub tpms_capability_data : Marshalable TpmsCapabilityData
tpms_capability_data = derive_enum 4 tpms_capability_data_variant

unfoldable pub tpms_capability_data_variant_format : Format TpmsCapabilityData
tpms_capability_data_variant_format = via_format tpms_capability_data_sum (
    sum_format tpml_alg_property_format (
      sum_format tpml_handle_format (
        sum_format tpml_cca_format (
          sum_format tpml_cc_format (
            sum_format tpml_cc_format (
              sum_format tpml_pcr_selection_format (
                sum_format tpml_tagged_tpm_property_format (
                  sum_format tpml_tagged_pcr_property_format (
                    sum_format tpml_ecc_curve_format
                      (sum_format tpml_tagged_policy_format no_format))))))))))

unfoldable pub tpms_capability_data_format : Format TpmsCapabilityData
tpms_capability_data_format =
    enum_format 4 tpms_capability_data_variant tpms_capability_data_variant_format

pub tpms_capability_data_variant-Lawful :
    LawfulVariant 4 tpms_capability_data_variant tpms_capability_data_variant_format
unfolding tpms_capability_data_variant tpms_capability_data_variant_format
tpms_capability_data_variant-Lawful =
    derive_variant-Lawful tpms_capability_data_sum tpms_capability_data_of
      tpms_capability_data_of-sum tpms_capability_data_sum-of
      (variant-Lawful _ _ (field-LawfulFragment tpml_alg_property-Lawful)
        (variant-Lawful _ _ (field-LawfulFragment tpml_handle-Lawful)
          (variant-Lawful _ _ (field-LawfulFragment tpml_cca-Lawful)
            (variant-Lawful _ _ (field-LawfulFragment tpml_cc-Lawful)
              (variant-Lawful _ _ (field-LawfulFragment tpml_cc-Lawful)
                (variant-Lawful _ _ (field-LawfulFragment tpml_pcr_selection-Lawful)
                  (variant-Lawful _ _ (field-LawfulFragment tpml_tagged_tpm_property-Lawful)
                    (variant-Lawful _ _ (field-LawfulFragment tpml_tagged_pcr_property-Lawful)
                      (variant-Lawful _ _ (field-LawfulFragment tpml_ecc_curve-Lawful)
                        (variant-Lawful _ _ (field-LawfulFragment tpml_tagged_policy-Lawful)
                          no_variants-Lawful (omega arith))
                        (omega arith))
                      (omega arith))
                    (omega arith))
                  (omega arith))
                (omega arith))
              (omega arith))
            (omega arith))
          (omega arith))
        (omega arith))
      4 (omega arith)

pub tpms_capability_data-Lawful : Lawful tpms_capability_data tpms_capability_data_format
unfolding tpms_capability_data tpms_capability_data_format
tpms_capability_data-Lawful = derive_enum-Lawful tpms_capability_data_variant-Lawful
