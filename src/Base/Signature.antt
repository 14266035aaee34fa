-- ===== src/Base/Signature.antt =====
-- base/src/lib.rs: signatures.
use tpm_rs.Base.Constants.Algorithms.{TpmAlgId, tpm_alg_id_number}
use tpm_rs.Base.Hash.{
  tpms_empty, tpms_empty_format, tpms_empty-Lawful, TpmtHa, tpmt_ha, tpmt_ha_format, tpmt_ha-Lawful,
}
use tpm_rs.Base.MoreBuffers.{
  tpm2b_public_key_rsa, tpm2b_public_key_rsa_format, tpm2b_public_key_rsa-Lawful,
  tpm2b_ecc_parameter, tpm2b_ecc_parameter_format, tpm2b_ecc_parameter-Lawful,
}
use tpm_rs.Base.Newtype.{newtype, newtype_format, newtype-Lawful}
use tpm_rs.Derive.Enum.{MarshalableVariant, no_variants, variant, derive_variant, derive_enum}
use tpm_rs.Derive.EnumLaws.{no_format, sum_format, no_variants-Lawful, variant-Lawful}
use tpm_rs.Derive.VariantLaws.{
  LawfulVariant, enum_format, derive_variant-Lawful, derive_enum-Lawful,
}
use tpm_rs.Derive.Fields.{field, ◌then◌, derive}
use tpm_rs.Derive.Laws.{
  pair_format, via_format, field-LawfulFragment, then-LawfulFragment, derive-Lawful,
}
use tpm_rs.Marshal.Core.{Marshalable}
use tpm_rs.Marshal.Lawful.{Format, Lawful}
use tpm_rs.Prelude.{ℕ, ◌≡◌, refl, arith, ◌⊎◌, inl, inr}
use tpm_rs.Tpm2b.Simple.{Tpm2b}

-- `TpmsSignatureRsa`
pub record TpmsSignatureRsa : Type 0 where
  pub hash : ℕ
  pub sig : Tpm2b

abbrev pub tpms_signature_rsa_fields : TpmsSignatureRsa → (ℕ × Tpm2b)
tpms_signature_rsa_fields s = (s.hash, s.sig)

abbrev pub tpms_signature_rsa_of : (ℕ × Tpm2b) → TpmsSignatureRsa
tpms_signature_rsa_of r = record { hash = r.0; sig = r.1 }

unfoldable pub tpms_signature_rsa : Marshalable TpmsSignatureRsa
tpms_signature_rsa =
    derive tpms_signature_rsa_fields tpms_signature_rsa_of
      (field (newtype 2) then field tpm2b_public_key_rsa)

unfoldable pub tpms_signature_rsa_format : Format TpmsSignatureRsa
tpms_signature_rsa_format =
    via_format tpms_signature_rsa_fields
      (pair_format (newtype_format 2) tpm2b_public_key_rsa_format)

pub tpms_signature_rsa-Lawful : Lawful tpms_signature_rsa tpms_signature_rsa_format
unfolding tpms_signature_rsa tpms_signature_rsa_format
tpms_signature_rsa-Lawful =
    derive-Lawful tpms_signature_rsa_fields tpms_signature_rsa_of (λ s. refl) (λ r. refl)
      (then-LawfulFragment (field-LawfulFragment (newtype-Lawful 2))
        (field-LawfulFragment tpm2b_public_key_rsa-Lawful))

-- `TpmsSignatureEcc`
pub record TpmsSignatureEcc : Type 0 where
  pub hash : ℕ
  pub signature_r : Tpm2b
  pub signature_s : Tpm2b

abbrev pub tpms_signature_ecc_fields : TpmsSignatureEcc → (ℕ × (Tpm2b × Tpm2b))
tpms_signature_ecc_fields s = (s.hash, (s.signature_r, s.signature_s))

abbrev pub tpms_signature_ecc_of : (ℕ × (Tpm2b × Tpm2b)) → TpmsSignatureEcc
tpms_signature_ecc_of r = record { hash = r.0; signature_r = r.1.0; signature_s = r.1.1 }

unfoldable pub tpms_signature_ecc : Marshalable TpmsSignatureEcc
tpms_signature_ecc =
    derive tpms_signature_ecc_fields tpms_signature_ecc_of
      (field (newtype 2) then field tpm2b_ecc_parameter then field tpm2b_ecc_parameter)

unfoldable pub tpms_signature_ecc_format : Format TpmsSignatureEcc
tpms_signature_ecc_format = via_format tpms_signature_ecc_fields (
    pair_format (newtype_format 2)
      (pair_format tpm2b_ecc_parameter_format tpm2b_ecc_parameter_format))

pub tpms_signature_ecc-Lawful : Lawful tpms_signature_ecc tpms_signature_ecc_format
unfolding tpms_signature_ecc tpms_signature_ecc_format
tpms_signature_ecc-Lawful =
    derive-Lawful tpms_signature_ecc_fields tpms_signature_ecc_of (λ s. refl) (λ r. refl)
      (then-LawfulFragment (field-LawfulFragment (newtype-Lawful 2)) (
        then-LawfulFragment (field-LawfulFragment tpm2b_ecc_parameter-Lawful)
          (field-LawfulFragment tpm2b_ecc_parameter-Lawful)))

-- `TpmtSignature`
pub data TpmtSignature : Type 0 where
  rsassa : TpmsSignatureRsa → TpmtSignature
  rsapss : TpmsSignatureRsa → TpmtSignature
  ecdsa : TpmsSignatureEcc → TpmtSignature
  ecdaa : TpmsSignatureEcc → TpmtSignature
  sm2 : TpmsSignatureEcc → TpmtSignature
  ecschnorr : TpmsSignatureEcc → TpmtSignature
  hmac : TpmtHa → TpmtSignature
  null : Unit {0} → TpmtSignature

abbrev pub TpmtSignatureSum : Type 0
TpmtSignatureSum =
    TpmsSignatureRsa
    ⊎ (TpmsSignatureRsa
        ⊎ (TpmsSignatureEcc
            ⊎ (TpmsSignatureEcc
                ⊎ (TpmsSignatureEcc ⊎ (TpmsSignatureEcc ⊎ (TpmtHa ⊎ ((Unit {0}) ⊎ ⊥)))))))

abbrev pub tpmt_signature_sum : TpmtSignature → TpmtSignatureSum
tpmt_signature_sum (TpmtSignature.rsassa x) = inl x
tpmt_signature_sum (TpmtSignature.rsapss x) = inr (inl x)
tpmt_signature_sum (TpmtSignature.ecdsa x) = inr (inr (inl x))
tpmt_signature_sum (TpmtSignature.ecdaa x) = inr (inr (inr (inl x)))
tpmt_signature_sum (TpmtSignature.sm2 x) = inr (inr (inr (inr (inl x))))
tpmt_signature_sum (TpmtSignature.ecschnorr x) = inr (inr (inr (inr (inr (inl x)))))
tpmt_signature_sum (TpmtSignature.hmac x) = inr (inr (inr (inr (inr (inr (inl x))))))
tpmt_signature_sum (TpmtSignature.null x) = inr (inr (inr (inr (inr (inr (inr (inl x)))))))

abbrev pub tpmt_signature_of : TpmtSignatureSum → TpmtSignature
tpmt_signature_of (inl x) = TpmtSignature.rsassa x
tpmt_signature_of (inr (inl x)) = TpmtSignature.rsapss x
tpmt_signature_of (inr (inr (inl x))) = TpmtSignature.ecdsa x
tpmt_signature_of (inr (inr (inr (inl x)))) = TpmtSignature.ecdaa x
tpmt_signature_of (inr (inr (inr (inr (inl x))))) = TpmtSignature.sm2 x
tpmt_signature_of (inr (inr (inr (inr (inr (inl x)))))) = TpmtSignature.ecschnorr x
tpmt_signature_of (inr (inr (inr (inr (inr (inr (inl x))))))) = TpmtSignature.hmac x
tpmt_signature_of (inr (inr (inr (inr (inr (inr (inr (inl x)))))))) = TpmtSignature.null x
tpmt_signature_of (inr (inr (inr (inr (inr (inr (inr (inr e)))))))) = absurd e

tpmt_signature_of-sum : (s : TpmtSignature) → tpmt_signature_of (tpmt_signature_sum s) ≡ s
tpmt_signature_of-sum (TpmtSignature.rsassa x) = refl
tpmt_signature_of-sum (TpmtSignature.rsapss x) = refl
tpmt_signature_of-sum (TpmtSignature.ecdsa x) = refl
tpmt_signature_of-sum (TpmtSignature.ecdaa x) = refl
tpmt_signature_of-sum (TpmtSignature.sm2 x) = refl
tpmt_signature_of-sum (TpmtSignature.ecschnorr x) = refl
tpmt_signature_of-sum (TpmtSignature.hmac x) = refl
tpmt_signature_of-sum (TpmtSignature.null x) = refl

tpmt_signature_sum-of : (e : TpmtSignatureSum) → tpmt_signature_sum (tpmt_signature_of e) ≡ e
tpmt_signature_sum-of (inl x) = refl
tpmt_signature_sum-of (inr (inl x)) = refl
tpmt_signature_sum-of (inr (inr (inl x))) = refl
tpmt_signature_sum-of (inr (inr (inr (inl x)))) = refl
tpmt_signature_sum-of (inr (inr (inr (inr (inl x))))) = refl
tpmt_signature_sum-of (inr (inr (inr (inr (inr (inl x)))))) = refl
tpmt_signature_sum-of (inr (inr (inr (inr (inr (inr (inl x))))))) = refl
tpmt_signature_sum-of (inr (inr (inr (inr (inr (inr (inr (inl x)))))))) = refl
tpmt_signature_sum-of (inr (inr (inr (inr (inr (inr (inr (inr e)))))))) = absurd e

unfoldable pub tpmt_signature_variant : MarshalableVariant TpmtSignature
tpmt_signature_variant = derive_variant tpmt_signature_sum tpmt_signature_of (
    variant (tpm_alg_id_number TpmAlgId.rsassa) (field tpms_signature_rsa) (
      variant (tpm_alg_id_number TpmAlgId.rsapss) (field tpms_signature_rsa) (
        variant (tpm_alg_id_number TpmAlgId.ecdsa) (field tpms_signature_ecc) (
          variant (tpm_alg_id_number TpmAlgId.ecdaa) (field tpms_signature_ecc) (
            variant (tpm_alg_id_number TpmAlgId.sm2) (field tpms_signature_ecc) (
              variant (tpm_alg_id_number TpmAlgId.ec_schnorr) (field tpms_signature_ecc) (
                variant (tpm_alg_id_number TpmAlgId.hmac) (field tpmt_ha)
                  (variant (tpm_alg_id_number TpmAlgId.null) (field tpms_empty) no_variants))))))))

unfoldable pub tpmt_signature : Marshalable TpmtSignature
tpmt_signature = derive_enum 2 tpmt_signature_variant

unfoldable pub tpmt_signature_variant_format : Format TpmtSignature
tpmt_signature_variant_format = via_format tpmt_signature_sum (
    sum_format tpms_signature_rsa_format (
      sum_format tpms_signature_rsa_format (
        sum_format tpms_signature_ecc_format (
          sum_format tpms_signature_ecc_format (
            sum_format tpms_signature_ecc_format (
              sum_format tpms_signature_ecc_format
                (sum_format tpmt_ha_format (sum_format tpms_empty_format no_format))))))))

unfoldable pub tpmt_signature_format : Format TpmtSignature
tpmt_signature_format = enum_format 2 tpmt_signature_variant tpmt_signature_variant_format

pub tpmt_signature_variant-Lawful :
    LawfulVariant 2 tpmt_signature_variant tpmt_signature_variant_format
unfolding tpmt_signature_variant tpmt_signature_variant_format
tpmt_signature_variant-Lawful =
    derive_variant-Lawful tpmt_signature_sum tpmt_signature_of tpmt_signature_of-sum
      tpmt_signature_sum-of
      (variant-Lawful _ _ (field-LawfulFragment tpms_signature_rsa-Lawful)
        (variant-Lawful _ _ (field-LawfulFragment tpms_signature_rsa-Lawful)
          (variant-Lawful _ _ (field-LawfulFragment tpms_signature_ecc-Lawful)
            (variant-Lawful _ _ (field-LawfulFragment tpms_signature_ecc-Lawful)
              (variant-Lawful _ _ (field-LawfulFragment tpms_signature_ecc-Lawful)
                (variant-Lawful _ _ (field-LawfulFragment tpms_signature_ecc-Lawful)
                  (variant-Lawful _ _ (field-LawfulFragment tpmt_ha-Lawful)
                    (variant-Lawful _ _ (field-LawfulFragment tpms_empty-Lawful) no_variants-Lawful
                      (omega arith))
                    (omega arith))
                  (omega arith))
                (omega arith))
              (omega arith))
            (omega arith))
          (omega arith))
        (omega arith))
      2 (omega arith)

pub tpmt_signature-Lawful : Lawful tpmt_signature tpmt_signature_format
unfolding tpmt_signature tpmt_signature_format
tpmt_signature-Lawful = derive_enum-Lawful tpmt_signature_variant-Lawful
