-- ===== src/Base/SensitiveParts.antt =====
-- base/src/lib.rs: the private parts of objects.
use tpm_rs.Base.Buffers.{
  tpm2b_digest, tpm2b_digest_format, tpm2b_digest-Lawful, tpm2b_sym_key, tpm2b_sym_key_format,
  tpm2b_sym_key-Lawful, tpm2b_sensitive_data, tpm2b_sensitive_data_format,
  tpm2b_sensitive_data-Lawful,
}
use tpm_rs.Base.Constants.Algorithms.{TpmAlgId, tpm_alg_id_number}
use tpm_rs.Base.MoreBuffers.{
  tpm2b_private_key_rsa, tpm2b_private_key_rsa_format, tpm2b_private_key_rsa-Lawful,
  tpm2b_ecc_parameter, tpm2b_ecc_parameter_format, tpm2b_ecc_parameter-Lawful,
  tpm2b_private_vendor_specific, tpm2b_private_vendor_specific_format,
  tpm2b_private_vendor_specific-Lawful,
}
use tpm_rs.Derive.Enum.{MarshalableVariant, no_variants, variant, derive_variant, derive_enum}
use tpm_rs.Derive.EnumLaws.{no_format, sum_format, no_variants-Lawful, variant-Lawful}
use tpm_rs.Derive.VariantLaws.{
  LawfulVariant, enum_format, derive_variant-Lawful, derive_enum-Lawful,
}
use tpm_rs.Derive.Fields.{field, ◌then◌, derive}
use tpm_rs.Derive.Laws.{
  pair_format, via_format, field-LawfulFragment, then-LawfulFragment, derive-Lawful,
}
use tpm_rs.Marshal.Core.{Marshalable}
use tpm_rs.Marshal.Lawful.{Format, Lawful}
use tpm_rs.Prelude.{◌≡◌, refl, arith, ◌⊎◌, inl, inr}
use tpm_rs.Tpm2b.Simple.{Tpm2b}

-- `TpmsSensitiveCreate`
pub record TpmsSensitiveCreate : Type 0 where
  pub user_auth : Tpm2b
  pub sensitive_data : Tpm2b

abbrev pub tpms_sensitive_create_fields : TpmsSensitiveCreate → (Tpm2b × Tpm2b)
tpms_sensitive_create_fields s = (s.user_auth, s.sensitive_data)

abbrev pub tpms_sensitive_create_of : (Tpm2b × Tpm2b) → TpmsSensitiveCreate
tpms_sensitive_create_of r = record { user_auth = r.0; sensitive_data = r.1 }

unfoldable pub tpms_sensitive_create : Marshalable TpmsSensitiveCreate
tpms_sensitive_create =
    derive tpms_sensitive_create_fields tpms_sensitive_create_of
      (field tpm2b_digest then field tpm2b_sensitive_data)

unfoldable pub tpms_sensitive_create_format : Format TpmsSensitiveCreate
tpms_sensitive_create_format =
    via_format tpms_sensitive_create_fields
      (pair_format tpm2b_digest_format tpm2b_sensitive_data_format)

pub tpms_sensitive_create-Lawful : Lawful tpms_sensitive_create tpms_sensitive_create_format
unfolding tpms_sensitive_create tpms_sensitive_create_format
tpms_sensitive_create-Lawful =
    derive-Lawful tpms_sensitive_create_fields tpms_sensitive_create_of (λ s. refl) (λ r. refl)
      (then-LawfulFragment (field-LawfulFragment tpm2b_digest-Lawful)
        (field-LawfulFragment tpm2b_sensitive_data-Lawful))

-- `TpmuSensitiveComposite`
pub data TpmuSensitiveComposite : Type 0 where
  rsa : Tpm2b → TpmuSensitiveComposite
  ecc : Tpm2b → TpmuSensitiveComposite
  bits : Tpm2b → TpmuSensitiveComposite
  sym : Tpm2b → TpmuSensitiveComposite
  any : Tpm2b → TpmuSensitiveComposite

abbrev pub TpmuSensitiveCompositeSum : Type 0
TpmuSensitiveCompositeSum = Tpm2b ⊎ (Tpm2b ⊎ (Tpm2b ⊎ (Tpm2b ⊎ (Tpm2b ⊎ ⊥))))

abbrev pub tpmu_sensitive_composite_sum : TpmuSensitiveComposite → TpmuSensitiveCompositeSum
tpmu_sensitive_composite_sum (TpmuSensitiveComposite.rsa x) = inl x
tpmu_sensitive_composite_sum (TpmuSensitiveComposite.ecc x) = inr (inl x)
tpmu_sensitive_composite_sum (TpmuSensitiveComposite.bits x) = inr (inr (inl x))
tpmu_sensitive_composite_sum (TpmuSensitiveComposite.sym x) = inr (inr (inr (inl x)))
tpmu_sensitive_composite_sum (TpmuSensitiveComposite.any x) = inr (inr (inr (inr (inl x))))

abbrev pub tpmu_sensitive_composite_of : TpmuSensitiveCompositeSum → TpmuSensitiveComposite
tpmu_sensitive_composite_of (inl x) = TpmuSensitiveComposite.rsa x
tpmu_sensitive_composite_of (inr (inl x)) = TpmuSensitiveComposite.ecc x
tpmu_sensitive_composite_of (inr (inr (inl x))) = TpmuSensitiveComposite.bits x
tpmu_sensitive_composite_of (inr (inr (inr (inl x)))) = TpmuSensitiveComposite.sym x
tpmu_sensitive_composite_of (inr (inr (inr (inr (inl x))))) = TpmuSensitiveComposite.any x
tpmu_sensitive_composite_of (inr (inr (inr (inr (inr e))))) = absurd e

tpmu_sensitive_composite_of-sum :
    (s : TpmuSensitiveComposite) → tpmu_sensitive_composite_of (tpmu_sensitive_composite_sum s) ≡ s
tpmu_sensitive_composite_of-sum (TpmuSensitiveComposite.rsa x) = refl
tpmu_sensitive_composite_of-sum (TpmuSensitiveComposite.ecc x) = refl
tpmu_sensitive_composite_of-sum (TpmuSensitiveComposite.bits x) = refl
tpmu_sensitive_composite_of-sum (TpmuSensitiveComposite.sym x) = refl
tpmu_sensitive_composite_of-sum (TpmuSensitiveComposite.any x) = refl

tpmu_sensitive_composite_sum-of :
    (e : TpmuSensitiveCompositeSum)
    → tpmu_sensitive_composite_sum (tpmu_sensitive_composite_of e) ≡ e
tpmu_sensitive_composite_sum-of (inl x) = refl
tpmu_sensitive_composite_sum-of (inr (inl x)) = refl
tpmu_sensitive_composite_sum-of (inr (inr (inl x))) = refl
tpmu_sensitive_composite_sum-of (inr (inr (inr (inl x)))) = refl
tpmu_sensitive_composite_sum-of (inr (inr (inr (inr (inl x))))) = refl
tpmu_sensitive_composite_sum-of (inr (inr (inr (inr (inr e))))) = absurd e

unfoldable pub tpmu_sensitive_composite_variant : MarshalableVariant TpmuSensitiveComposite
tpmu_sensitive_composite_variant =
    derive_variant tpmu_sensitive_composite_sum tpmu_sensitive_composite_of (
      variant (tpm_alg_id_number TpmAlgId.rsa) (field tpm2b_private_key_rsa) (
        variant (tpm_alg_id_number TpmAlgId.ecc) (field tpm2b_ecc_parameter) (
          variant (tpm_alg_id_number TpmAlgId.keyed_hash) (field tpm2b_sensitive_data) (
            variant (tpm_alg_id_number TpmAlgId.sym_cipher) (field tpm2b_sym_key) (
              variant (tpm_alg_id_number TpmAlgId.null) (field tpm2b_private_vendor_specific)
                no_variants)))))

unfoldable pub tpmu_sensitive_composite : Marshalable TpmuSensitiveComposite
tpmu_sensitive_composite = derive_enum 2 tpmu_sensitive_composite_variant

unfoldable pub tpmu_sensitive_composite_variant_format : Format TpmuSensitiveComposite
tpmu_sensitive_composite_variant_format = via_format tpmu_sensitive_composite_sum (
    sum_format tpm2b_private_key_rsa_format (
      sum_format tpm2b_ecc_parameter_format (
        sum_format tpm2b_sensitive_data_format (
          sum_format tpm2b_sym_key_format
            (sum_format tpm2b_private_vendor_specific_format no_format)))))

unfoldable pub tpmu_sensitive_composite_format : Format TpmuSensitiveComposite
tpmu_sensitive_composite_format =
    enum_format 2 tpmu_sensitive_composite_variant tpmu_sensitive_composite_variant_format

pub tpmu_sensitive_composite_variant-Lawful :
    LawfulVariant 2 tpmu_sensitive_composite_variant tpmu_sensitive_composite_variant_format
unfolding tpmu_sensitive_composite_variant tpmu_sensitive_composite_variant_format
tpmu_sensitive_composite_variant-Lawful =
    derive_variant-Lawful tpmu_sensitive_composite_sum tpmu_sensitive_composite_of
      tpmu_sensitive_composite_of-sum tpmu_sensitive_composite_sum-of
      (variant-Lawful _ _ (field-LawfulFragment tpm2b_private_key_rsa-Lawful)
        (variant-Lawful _ _ (field-LawfulFragment tpm2b_ecc_parameter-Lawful)
          (variant-Lawful _ _ (field-LawfulFragment tpm2b_sensitive_data-Lawful)
            (variant-Lawful _ _ (field-LawfulFragment tpm2b_sym_key-Lawful)
              (variant-Lawful _ _ (field-LawfulFragment tpm2b_private_vendor_specific-Lawful)
                no_variants-Lawful (omega arith))
              (omega arith))
            (omega arith))
          (omega arith))
        (omega arith))
      2 (omega arith)

pub tpmu_sensitive_composite-Lawful :
    Lawful tpmu_sensitive_composite tpmu_sensitive_composite_format
unfolding tpmu_sensitive_composite tpmu_sensitive_composite_format
tpmu_sensitive_composite-Lawful = derive_enum-Lawful tpmu_sensitive_composite_variant-Lawful
