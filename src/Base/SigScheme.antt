-- ===== src/Base/SigScheme.antt =====
-- base/src/lib.rs: signature schemes.
use tpm_rs.Base.Constants.Algorithms.{TpmAlgId, tpm_alg_id_number}
use tpm_rs.Base.Hash.{tpms_empty, tpms_empty_format, tpms_empty-Lawful}
use tpm_rs.Base.Schemes.{
  TpmsSchemeHash, tpms_scheme_hash, tpms_scheme_hash_format, tpms_scheme_hash-Lawful,
  TpmsSchemeEcdaa, tpms_scheme_ecdaa, tpms_scheme_ecdaa_format, tpms_scheme_ecdaa-Lawful,
}
use tpm_rs.Derive.Enum.{MarshalableVariant, no_variants, variant, derive_variant, derive_enum}
use tpm_rs.Derive.EnumLaws.{no_format, sum_format, no_variants-Lawful, variant-Lawful}
use tpm_rs.Derive.VariantLaws.{
  LawfulVariant, enum_format, derive_variant-Lawful, derive_enum-Lawful,
}
use tpm_rs.Derive.Fields.{field}
use tpm_rs.Derive.Laws.{via_format, field-LawfulFragment}
use tpm_rs.Marshal.Core.{Marshalable}
use tpm_rs.Marshal.Lawful.{Format, Lawful}
use tpm_rs.Prelude.{◌≡◌, refl, arith, ◌⊎◌, inl, inr}

-- `TpmtSigScheme`
pub data TpmtSigScheme : Type 0 where
  rsassa : TpmsSchemeHash → TpmtSigScheme
  rsapss : TpmsSchemeHash → TpmtSigScheme
  ecdsa : TpmsSchemeHash → TpmtSigScheme
  ecdaa : TpmsSchemeEcdaa → TpmtSigScheme
  sm2 : TpmsSchemeHash → TpmtSigScheme
  ecschnorr : TpmsSchemeHash → TpmtSigScheme
  hmac : TpmsSchemeHash → TpmtSigScheme
  null : Unit {0} → TpmtSigScheme

abbrev pub TpmtSigSchemeSum : Type 0
TpmtSigSchemeSum =
    TpmsSchemeHash
    ⊎ (TpmsSchemeHash
        ⊎ (TpmsSchemeHash
            ⊎ (TpmsSchemeEcdaa
                ⊎ (TpmsSchemeHash ⊎ (TpmsSchemeHash ⊎ (TpmsSchemeHash ⊎ ((Unit {0}) ⊎ ⊥)))))))

abbrev pub tpmt_sig_scheme_sum : TpmtSigScheme → TpmtSigSchemeSum
tpmt_sig_scheme_sum (TpmtSigScheme.rsassa x) = inl x
tpmt_sig_scheme_sum (TpmtSigScheme.rsapss x) = inr (inl x)
tpmt_sig_scheme_sum (TpmtSigScheme.ecdsa x) = inr (inr (inl x))
tpmt_sig_scheme_sum (TpmtSigScheme.ecdaa x) = inr (inr (inr (inl x)))
tpmt_sig_scheme_sum (TpmtSigScheme.sm2 x) = inr (inr (inr (inr (inl x))))
tpmt_sig_scheme_sum (TpmtSigScheme.ecschnorr x) = inr (inr (inr (inr (inr (inl x)))))
tpmt_sig_scheme_sum (TpmtSigScheme.hmac x) = inr (inr (inr (inr (inr (inr (inl x))))))
tpmt_sig_scheme_sum (TpmtSigScheme.null x) = inr (inr (inr (inr (inr (inr (inr (inl x)))))))

abbrev pub tpmt_sig_scheme_of : TpmtSigSchemeSum → TpmtSigScheme
tpmt_sig_scheme_of (inl x) = TpmtSigScheme.rsassa x
tpmt_sig_scheme_of (inr (inl x)) = TpmtSigScheme.rsapss x
tpmt_sig_scheme_of (inr (inr (inl x))) = TpmtSigScheme.ecdsa x
tpmt_sig_scheme_of (inr (inr (inr (inl x)))) = TpmtSigScheme.ecdaa x
tpmt_sig_scheme_of (inr (inr (inr (inr (inl x))))) = TpmtSigScheme.sm2 x
tpmt_sig_scheme_of (inr (inr (inr (inr (inr (inl x)))))) = TpmtSigScheme.ecschnorr x
tpmt_sig_scheme_of (inr (inr (inr (inr (inr (inr (inl x))))))) = TpmtSigScheme.hmac x
tpmt_sig_scheme_of (inr (inr (inr (inr (inr (inr (inr (inl x)))))))) = TpmtSigScheme.null x
tpmt_sig_scheme_of (inr (inr (inr (inr (inr (inr (inr (inr e)))))))) = absurd e

tpmt_sig_scheme_of-sum : (s : TpmtSigScheme) → tpmt_sig_scheme_of (tpmt_sig_scheme_sum s) ≡ s
tpmt_sig_scheme_of-sum (TpmtSigScheme.rsassa x) = refl
tpmt_sig_scheme_of-sum (TpmtSigScheme.rsapss x) = refl
tpmt_sig_scheme_of-sum (TpmtSigScheme.ecdsa x) = refl
tpmt_sig_scheme_of-sum (TpmtSigScheme.ecdaa x) = refl
tpmt_sig_scheme_of-sum (TpmtSigScheme.sm2 x) = refl
tpmt_sig_scheme_of-sum (TpmtSigScheme.ecschnorr x) = refl
tpmt_sig_scheme_of-sum (TpmtSigScheme.hmac x) = refl
tpmt_sig_scheme_of-sum (TpmtSigScheme.null x) = refl

tpmt_sig_scheme_sum-of : (e : TpmtSigSchemeSum) → tpmt_sig_scheme_sum (tpmt_sig_scheme_of e) ≡ e
tpmt_sig_scheme_sum-of (inl x) = refl
tpmt_sig_scheme_sum-of (inr (inl x)) = refl
tpmt_sig_scheme_sum-of (inr (inr (inl x))) = refl
tpmt_sig_scheme_sum-of (inr (inr (inr (inl x)))) = refl
tpmt_sig_scheme_sum-of (inr (inr (inr (inr (inl x))))) = refl
tpmt_sig_scheme_sum-of (inr (inr (inr (inr (inr (inl x)))))) = refl
tpmt_sig_scheme_sum-of (inr (inr (inr (inr (inr (inr (inl x))))))) = refl
tpmt_sig_scheme_sum-of (inr (inr (inr (inr (inr (inr (inr (inl x)))))))) = refl
tpmt_sig_scheme_sum-of (inr (inr (inr (inr (inr (inr (inr (inr e)))))))) = absurd e

unfoldable pub tpmt_sig_scheme_variant : MarshalableVariant TpmtSigScheme
tpmt_sig_scheme_variant = derive_variant tpmt_sig_scheme_sum tpmt_sig_scheme_of (
    variant (tpm_alg_id_number TpmAlgId.rsassa) (field tpms_scheme_hash) (
      variant (tpm_alg_id_number TpmAlgId.rsapss) (field tpms_scheme_hash) (
        variant (tpm_alg_id_number TpmAlgId.ecdsa) (field tpms_scheme_hash) (
          variant (tpm_alg_id_number TpmAlgId.ecdaa) (field tpms_scheme_ecdaa) (
            variant (tpm_alg_id_number TpmAlgId.sm2) (field tpms_scheme_hash) (
              variant (tpm_alg_id_number TpmAlgId.ec_schnorr) (field tpms_scheme_hash) (
                variant (tpm_alg_id_number TpmAlgId.hmac) (field tpms_scheme_hash)
                  (variant (tpm_alg_id_number TpmAlgId.null) (field tpms_empty) no_variants))))))))

unfoldable pub tpmt_sig_scheme : Marshalable TpmtSigScheme
tpmt_sig_scheme = derive_enum 2 tpmt_sig_scheme_variant

unfoldable pub tpmt_sig_scheme_variant_format : Format TpmtSigScheme
tpmt_sig_scheme_variant_format = via_format tpmt_sig_scheme_sum (
    sum_format tpms_scheme_hash_format (
      sum_format tpms_scheme_hash_format (
        sum_format tpms_scheme_hash_format (
          sum_format tpms_scheme_ecdaa_format (
            sum_format tpms_scheme_hash_format (
              sum_format tpms_scheme_hash_format
                (sum_format tpms_scheme_hash_format (sum_format tpms_empty_format no_format))))))))

unfoldable pub tpmt_sig_scheme_format : Format TpmtSigScheme
tpmt_sig_scheme_format = enum_format 2 tpmt_sig_scheme_variant tpmt_sig_scheme_variant_format

pub tpmt_sig_scheme_variant-Lawful :
    LawfulVariant 2 tpmt_sig_scheme_variant tpmt_sig_scheme_variant_format
unfolding tpmt_sig_scheme_variant tpmt_sig_scheme_variant_format
tpmt_sig_scheme_variant-Lawful =
    derive_variant-Lawful tpmt_sig_scheme_sum tpmt_sig_scheme_of tpmt_sig_scheme_of-sum
      tpmt_sig_scheme_sum-of
      (variant-Lawful _ _ (field-LawfulFragment tpms_scheme_hash-Lawful)
        (variant-Lawful _ _ (field-LawfulFragment tpms_scheme_hash-Lawful)
          (variant-Lawful _ _ (field-LawfulFragment tpms_scheme_hash-Lawful)
            (variant-Lawful _ _ (field-LawfulFragment tpms_scheme_ecdaa-Lawful)
              (variant-Lawful _ _ (field-LawfulFragment tpms_scheme_hash-Lawful)
                (variant-Lawful _ _ (field-LawfulFragment tpms_scheme_hash-Lawful)
                  (variant-Lawful _ _ (field-LawfulFragment tpms_scheme_hash-Lawful)
                    (variant-Lawful _ _ (field-LawfulFragment tpms_empty-Lawful) no_variants-Lawful
                      (omega arith))
                    (omega arith))
                  (omega arith))
                (omega arith))
              (omega arith))
            (omega arith))
          (omega arith))
        (omega arith))
      2 (omega arith)

pub tpmt_sig_scheme-Lawful : Lawful tpmt_sig_scheme tpmt_sig_scheme_format
unfolding tpmt_sig_scheme tpmt_sig_scheme_format
tpmt_sig_scheme-Lawful = derive_enum-Lawful tpmt_sig_scheme_variant-Lawful
