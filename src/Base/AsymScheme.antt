-- ===== src/Base/AsymScheme.antt =====
-- base/src/lib.rs: asymmetric schemes and parameters.
use tpm_rs.Base.Constants.Algorithms.{TpmAlgId, tpm_alg_id_number}
use tpm_rs.Base.Hash.{tpms_empty, tpms_empty_format, tpms_empty-Lawful}
use tpm_rs.Base.Schemes.{
  TpmsSchemeHash, tpms_scheme_hash, tpms_scheme_hash_format, tpms_scheme_hash-Lawful,
  TpmsSchemeEcdaa, tpms_scheme_ecdaa, tpms_scheme_ecdaa_format, tpms_scheme_ecdaa-Lawful,
  TpmtSymDefObject, tpmt_sym_def_object, tpmt_sym_def_object_format, tpmt_sym_def_object-Lawful,
}
use tpm_rs.Derive.Enum.{MarshalableVariant, no_variants, variant, derive_variant, derive_enum}
use tpm_rs.Derive.EnumLaws.{no_format, sum_format, no_variants-Lawful, variant-Lawful}
use tpm_rs.Derive.VariantLaws.{
  LawfulVariant, enum_format, derive_variant-Lawful, derive_enum-Lawful,
}
use tpm_rs.Derive.Fields.{field, ◌then◌, derive}
use tpm_rs.Derive.Laws.{
  pair_format, via_format, field-LawfulFragment, then-LawfulFragment, derive-Lawful,
}
use tpm_rs.Marshal.Core.{Marshalable}
use tpm_rs.Marshal.Lawful.{Format, Lawful}
use tpm_rs.Prelude.{◌≡◌, refl, arith, ◌⊎◌, inl, inr}

-- `TpmtAsymScheme`
pub data TpmtAsymScheme : Type 0 where
  ecdh : TpmsSchemeHash → TpmtAsymScheme
  ecmqv : TpmsSchemeHash → TpmtAsymScheme
  sm2 : TpmsSchemeHash → TpmtAsymScheme
  rsapss : TpmsSchemeHash → TpmtAsymScheme
  rsassa : TpmsSchemeHash → TpmtAsymScheme
  ecdsa : TpmsSchemeHash → TpmtAsymScheme
  ecdaa : TpmsSchemeEcdaa → TpmtAsymScheme
  ecschnorr : TpmsSchemeHash → TpmtAsymScheme
  rsaes : Unit {0} → TpmtAsymScheme
  oaep : TpmsSchemeHash → TpmtAsymScheme
  null : Unit {0} → TpmtAsymScheme

abbrev pub TpmtAsymSchemeSum : Type 0
TpmtAsymSchemeSum =
    TpmsSchemeHash
    ⊎ (TpmsSchemeHash
        ⊎ (TpmsSchemeHash
            ⊎ (TpmsSchemeHash
                ⊎ (TpmsSchemeHash
                    ⊎ (TpmsSchemeHash
                        ⊎ (TpmsSchemeEcdaa
                            ⊎ (TpmsSchemeHash
                                ⊎ ((Unit {0}) ⊎ (TpmsSchemeHash ⊎ ((Unit {0}) ⊎ ⊥))))))))))

abbrev pub tpmt_asym_scheme_sum : TpmtAsymScheme → TpmtAsymSchemeSum
tpmt_asym_scheme_sum (TpmtAsymScheme.ecdh x) = inl x
tpmt_asym_scheme_sum (TpmtAsymScheme.ecmqv x) = inr (inl x)
tpmt_asym_scheme_sum (TpmtAsymScheme.sm2 x) = inr (inr (inl x))
tpmt_asym_scheme_sum (TpmtAsymScheme.rsapss x) = inr (inr (inr (inl x)))
tpmt_asym_scheme_sum (TpmtAsymScheme.rsassa x) = inr (inr (inr (inr (inl x))))
tpmt_asym_scheme_sum (TpmtAsymScheme.ecdsa x) = inr (inr (inr (inr (inr (inl x)))))
tpmt_asym_scheme_sum (TpmtAsymScheme.ecdaa x) = inr (inr (inr (inr (inr (inr (inl x))))))
tpmt_asym_scheme_sum (TpmtAsymScheme.ecschnorr x) = inr (inr (inr (inr (inr (inr (inr (inl x)))))))
tpmt_asym_scheme_sum (TpmtAsymScheme.rsaes x) =
    inr (inr (inr (inr (inr (inr (inr (inr (inl x))))))))
tpmt_asym_scheme_sum (TpmtAsymScheme.oaep x) =
    inr (inr (inr (inr (inr (inr (inr (inr (inr (inl x)))))))))
tpmt_asym_scheme_sum (TpmtAsymScheme.null x) =
    inr (inr (inr (inr (inr (inr (inr (inr (inr (inr (inl x))))))))))

abbrev pub tpmt_asym_scheme_of : TpmtAsymSchemeSum → TpmtAsymScheme
tpmt_asym_scheme_of (inl x) = TpmtAsymScheme.ecdh x
tpmt_asym_scheme_of (inr (inl x)) = TpmtAsymScheme.ecmqv x
tpmt_asym_scheme_of (inr (inr (inl x))) = TpmtAsymScheme.sm2 x
tpmt_asym_scheme_of (inr (inr (inr (inl x)))) = TpmtAsymScheme.rsapss x
tpmt_asym_scheme_of (inr (inr (inr (inr (inl x))))) = TpmtAsymScheme.rsassa x
tpmt_asym_scheme_of (inr (inr (inr (inr (inr (inl x)))))) = TpmtAsymScheme.ecdsa x
tpmt_asym_scheme_of (inr (inr (inr (inr (inr (inr (inl x))))))) = TpmtAsymScheme.ecdaa x
tpmt_asym_scheme_of (inr (inr (inr (inr (inr (inr (inr (inl x)))))))) = TpmtAsymScheme.ecschnorr x
tpmt_asym_scheme_of (inr (inr (inr (inr (inr (inr (inr (inr (inl x))))))))) = TpmtAsymScheme.rsaes x
tpmt_asym_scheme_of (inr (inr (inr (inr (inr (inr (inr (inr (inr (inl x)))))))))) =
    TpmtAsymScheme.oaep x
tpmt_asym_scheme_of (inr (inr (inr (inr (inr (inr (inr (inr (inr (inr (inl x))))))))))) =
    TpmtAsymScheme.null x
tpmt_asym_scheme_of (inr (inr (inr (inr (inr (inr (inr (inr (inr (inr (inr e))))))))))) = absurd e

tpmt_asym_scheme_of-sum : (s : TpmtAsymScheme) → tpmt_asym_scheme_of (tpmt_asym_scheme_sum s) ≡ s
tpmt_asym_scheme_of-sum (TpmtAsymScheme.ecdh x) = refl
tpmt_asym_scheme_of-sum (TpmtAsymScheme.ecmqv x) = refl
tpmt_asym_scheme_of-sum (TpmtAsymScheme.sm2 x) = refl
tpmt_asym_scheme_of-sum (TpmtAsymScheme.rsapss x) = refl
tpmt_asym_scheme_of-sum (TpmtAsymScheme.rsassa x) = refl
tpmt_asym_scheme_of-sum (TpmtAsymScheme.ecdsa x) = refl
tpmt_asym_scheme_of-sum (TpmtAsymScheme.ecdaa x) = refl
tpmt_asym_scheme_of-sum (TpmtAsymScheme.ecschnorr x) = refl
tpmt_asym_scheme_of-sum (TpmtAsymScheme.rsaes x) = refl
tpmt_asym_scheme_of-sum (TpmtAsymScheme.oaep x) = refl
tpmt_asym_scheme_of-sum (TpmtAsymScheme.null x) = refl

tpmt_asym_scheme_sum-of : (e : TpmtAsymSchemeSum) → tpmt_asym_scheme_sum (tpmt_asym_scheme_of e) ≡ e
tpmt_asym_scheme_sum-of (inl x) = refl
tpmt_asym_scheme_sum-of (inr (inl x)) = refl
tpmt_asym_scheme_sum-of (inr (inr (inl x))) = refl
tpmt_asym_scheme_sum-of (inr (inr (inr (inl x)))) = refl
tpmt_asym_scheme_sum-of (inr (inr (inr (inr (inl x))))) = refl
tpmt_asym_scheme_sum-of (inr (inr (inr (inr (inr (inl x)))))) = refl
tpmt_asym_scheme_sum-of (inr (inr (inr (inr (inr (inr (inl x))))))) = refl
tpmt_asym_scheme_sum-of (inr (inr (inr (inr (inr (inr (inr (inl x)))))))) = refl
tpmt_asym_scheme_sum-of (inr (inr (inr (inr (inr (inr (inr (inr (inl x))))))))) = refl
tpmt_asym_scheme_sum-of (inr (inr (inr (inr (inr (inr (inr (inr (inr (inl x)))))))))) = refl
tpmt_asym_scheme_sum-of (inr (inr (inr (inr (inr (inr (inr (inr (inr (inr (inl x))))))))))) = refl
tpmt_asym_scheme_sum-of (inr (inr (inr (inr (inr (inr (inr (inr (inr (inr (inr e))))))))))) =
    absurd e

unfoldable pub tpmt_asym_scheme_variant : MarshalableVariant TpmtAsymScheme
tpmt_asym_scheme_variant = derive_variant tpmt_asym_scheme_sum tpmt_asym_scheme_of (
    variant (tpm_alg_id_number TpmAlgId.ecdh) (field tpms_scheme_hash) (
      variant (tpm_alg_id_number TpmAlgId.ecmqv) (field tpms_scheme_hash) (
        variant (tpm_alg_id_number TpmAlgId.sm2) (field tpms_scheme_hash) (
          variant (tpm_alg_id_number TpmAlgId.rsapss) (field tpms_scheme_hash) (
            variant (tpm_alg_id_number TpmAlgId.rsassa) (field tpms_scheme_hash) (
              variant (tpm_alg_id_number TpmAlgId.ecdsa) (field tpms_scheme_hash) (
                variant (tpm_alg_id_number TpmAlgId.ecdaa) (field tpms_scheme_ecdaa) (
                  variant (tpm_alg_id_number TpmAlgId.ec_schnorr) (field tpms_scheme_hash) (
                    variant (tpm_alg_id_number TpmAlgId.rsaes) (field tpms_empty) (
                      variant (tpm_alg_id_number TpmAlgId.oaep) (field tpms_scheme_hash) (
                        variant (tpm_alg_id_number TpmAlgId.null) (field tpms_empty)
                          no_variants)))))))))))

unfoldable pub tpmt_asym_scheme : Marshalable TpmtAsymScheme
tpmt_asym_scheme = derive_enum 2 tpmt_asym_scheme_variant

unfoldable pub tpmt_asym_scheme_variant_format : Format TpmtAsymScheme
tpmt_asym_scheme_variant_format = via_format tpmt_asym_scheme_sum (
    sum_format tpms_scheme_hash_format (
      sum_format tpms_scheme_hash_format (
        sum_format tpms_scheme_hash_format (
          sum_format tpms_scheme_hash_format (
            sum_format tpms_scheme_hash_format (
              sum_format tpms_scheme_hash_format (
                sum_format tpms_scheme_ecdaa_format (
                  sum_format tpms_scheme_hash_format (
                    sum_format tpms_empty_format (
                      sum_format tpms_scheme_hash_format
                        (sum_format tpms_empty_format no_format)))))))))))

unfoldable pub tpmt_asym_scheme_format : Format TpmtAsymScheme
tpmt_asym_scheme_format = enum_format 2 tpmt_asym_scheme_variant tpmt_asym_scheme_variant_format

pub tpmt_asym_scheme_variant-Lawful :
    LawfulVariant 2 tpmt_asym_scheme_variant tpmt_asym_scheme_variant_format
unfolding tpmt_asym_scheme_variant tpmt_asym_scheme_variant_format
tpmt_asym_scheme_variant-Lawful =
    derive_variant-Lawful tpmt_asym_scheme_sum tpmt_asym_scheme_of tpmt_asym_scheme_of-sum
      tpmt_asym_scheme_sum-of
      (variant-Lawful _ _ (field-LawfulFragment tpms_scheme_hash-Lawful)
        (variant-Lawful _ _ (field-LawfulFragment tpms_scheme_hash-Lawful)
          (variant-Lawful _ _ (field-LawfulFragment tpms_scheme_hash-Lawful)
            (variant-Lawful _ _ (field-LawfulFragment tpms_scheme_hash-Lawful)
              (variant-Lawful _ _ (field-LawfulFragment tpms_scheme_hash-Lawful)
                (variant-Lawful _ _ (field-LawfulFragment tpms_scheme_hash-Lawful)
                  (variant-Lawful _ _ (field-LawfulFragment tpms_scheme_ecdaa-Lawful)
                    (variant-Lawful _ _ (field-LawfulFragment tpms_scheme_hash-Lawful)
                      (variant-Lawful _ _ (field-LawfulFragment tpms_empty-Lawful)
                        (variant-Lawful _ _ (field-LawfulFragment tpms_scheme_hash-Lawful)
                          (variant-Lawful _ _ (field-LawfulFragment tpms_empty-Lawful)
                            no_variants-Lawful (omega arith))
                          (omega arith))
                        (omega arith))
                      (omega arith))
                    (omega arith))
                  (omega arith))
                (omega arith))
              (omega arith))
            (omega arith))
          (omega arith))
        (omega arith))
      2 (omega arith)

pub tpmt_asym_scheme-Lawful : Lawful tpmt_asym_scheme tpmt_asym_scheme_format
unfolding tpmt_asym_scheme tpmt_asym_scheme_format
tpmt_asym_scheme-Lawful = derive_enum-Lawful tpmt_asym_scheme_variant-Lawful

-- `TpmsAsymParms`
pub record TpmsAsymParms : Type 0 where
  pub symmetric : TpmtSymDefObject
  pub scheme : TpmtAsymScheme

abbrev pub tpms_asym_parms_fields : TpmsAsymParms → (TpmtSymDefObject × TpmtAsymScheme)
tpms_asym_parms_fields s = (s.symmetric, s.scheme)

abbrev pub tpms_asym_parms_of : (TpmtSymDefObject × TpmtAsymScheme) → TpmsAsymParms
tpms_asym_parms_of r = record { symmetric = r.0; scheme = r.1 }

unfoldable pub tpms_asym_parms : Marshalable TpmsAsymParms
tpms_asym_parms =
    derive tpms_asym_parms_fields tpms_asym_parms_of
      (field tpmt_sym_def_object then field tpmt_asym_scheme)

unfoldable pub tpms_asym_parms_format : Format TpmsAsymParms
tpms_asym_parms_format =
    via_format tpms_asym_parms_fields
      (pair_format tpmt_sym_def_object_format tpmt_asym_scheme_format)

pub tpms_asym_parms-Lawful : Lawful tpms_asym_parms tpms_asym_parms_format
unfolding tpms_asym_parms tpms_asym_parms_format
tpms_asym_parms-Lawful =
    derive-Lawful tpms_asym_parms_fields tpms_asym_parms_of (λ s. refl) (λ r. refl)
      (then-LawfulFragment (field-LawfulFragment tpmt_sym_def_object-Lawful)
        (field-LawfulFragment tpmt_asym_scheme-Lawful))
