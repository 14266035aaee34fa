-- ===== src/Base/RsaScheme.antt =====
-- base/src/lib.rs: RSA schemes and parameters.
use tpm_rs.Base.Constants.Algorithms.{TpmAlgId, tpm_alg_id_number}
use tpm_rs.Base.Hash.{tpms_empty, tpms_empty_format, tpms_empty-Lawful}
use tpm_rs.Base.Newtype.{newtype, newtype_format, newtype-Lawful}
use tpm_rs.Base.Schemes.{
  TpmsSchemeHash, tpms_scheme_hash, tpms_scheme_hash_format, tpms_scheme_hash-Lawful,
  TpmsSchemeEcdaa, tpms_scheme_ecdaa, tpms_scheme_ecdaa_format, tpms_scheme_ecdaa-Lawful,
  TpmtSymDefObject, tpmt_sym_def_object, tpmt_sym_def_object_format, tpmt_sym_def_object-Lawful,
}
use tpm_rs.Derive.Enum.{MarshalableVariant, no_variants, variant, derive_variant, derive_enum}
use tpm_rs.Derive.EnumLaws.{no_format, sum_format, no_variants-Lawful, variant-Lawful}
use tpm_rs.Derive.VariantLaws.{
  LawfulVariant, enum_format, derive_variant-Lawful, derive_enum-Lawful,
}
use tpm_rs.Derive.Fields.{field, ◌then◌, derive}
use tpm_rs.Derive.Laws.{
  pair_format, via_format, field-LawfulFragment, then-LawfulFragment, derive-Lawful,
}
use tpm_rs.Marshal.Core.{Marshalable, prim}
use tpm_rs.Marshal.Lawful.{Format, Lawful, prim_format, prim-Lawful}
use tpm_rs.Prelude.{ℕ, ◌≡◌, refl, arith, ◌⊎◌, inl, inr}

-- `TpmtRsaScheme`
pub data TpmtRsaScheme : Type 0 where
  rsapss : TpmsSchemeHash → TpmtRsaScheme
  rsassa : TpmsSchemeHash → TpmtRsaScheme
  ecdsa : TpmsSchemeHash → TpmtRsaScheme
  ecdaa : TpmsSchemeEcdaa → TpmtRsaScheme
  sm2 : TpmsSchemeHash → TpmtRsaScheme
  ecschnorr : TpmsSchemeHash → TpmtRsaScheme
  rsaes : Unit {0} → TpmtRsaScheme
  oaep : TpmsSchemeHash → TpmtRsaScheme
  null : Unit {0} → TpmtRsaScheme

abbrev pub TpmtRsaSchemeSum : Type 0
TpmtRsaSchemeSum =
    TpmsSchemeHash
    ⊎ (TpmsSchemeHash
        ⊎ (TpmsSchemeHash
            ⊎ (TpmsSchemeEcdaa
                ⊎ (TpmsSchemeHash
                    ⊎ (TpmsSchemeHash ⊎ ((Unit {0}) ⊎ (TpmsSchemeHash ⊎ ((Unit {0}) ⊎ ⊥))))))))

abbrev pub tpmt_rsa_scheme_sum : TpmtRsaScheme → TpmtRsaSchemeSum
tpmt_rsa_scheme_sum (TpmtRsaScheme.rsapss x) = inl x
tpmt_rsa_scheme_sum (TpmtRsaScheme.rsassa x) = inr (inl x)
tpmt_rsa_scheme_sum (TpmtRsaScheme.ecdsa x) = inr (inr (inl x))
tpmt_rsa_scheme_sum (TpmtRsaScheme.ecdaa x) = inr (inr (inr (inl x)))
tpmt_rsa_scheme_sum (TpmtRsaScheme.sm2 x) = inr (inr (inr (inr (inl x))))
tpmt_rsa_scheme_sum (TpmtRsaScheme.ecschnorr x) = inr (inr (inr (inr (inr (inl x)))))
tpmt_rsa_scheme_sum (TpmtRsaScheme.rsaes x) = inr (inr (inr (inr (inr (inr (inl x))))))
tpmt_rsa_scheme_sum (TpmtRsaScheme.oaep x) = inr (inr (inr (inr (inr (inr (inr (inl x)))))))
tpmt_rsa_scheme_sum (TpmtRsaScheme.null x) = inr (inr (inr (inr (inr (inr (inr (inr (inl x))))))))

abbrev pub tpmt_rsa_scheme_of : TpmtRsaSchemeSum → TpmtRsaScheme
tpmt_rsa_scheme_of (inl x) = TpmtRsaScheme.rsapss x
tpmt_rsa_scheme_of (inr (inl x)) = TpmtRsaScheme.rsassa x
tpmt_rsa_scheme_of (inr (inr (inl x))) = TpmtRsaScheme.ecdsa x
tpmt_rsa_scheme_of (inr (inr (inr (inl x)))) = TpmtRsaScheme.ecdaa x
tpmt_rsa_scheme_of (inr (inr (inr (inr (inl x))))) = TpmtRsaScheme.sm2 x
tpmt_rsa_scheme_of (inr (inr (inr (inr (inr (inl x)))))) = TpmtRsaScheme.ecschnorr x
tpmt_rsa_scheme_of (inr (inr (inr (inr (inr (inr (inl x))))))) = TpmtRsaScheme.rsaes x
tpmt_rsa_scheme_of (inr (inr (inr (inr (inr (inr (inr (inl x)))))))) = TpmtRsaScheme.oaep x
tpmt_rsa_scheme_of (inr (inr (inr (inr (inr (inr (inr (inr (inl x))))))))) = TpmtRsaScheme.null x
tpmt_rsa_scheme_of (inr (inr (inr (inr (inr (inr (inr (inr (inr e))))))))) = absurd e

tpmt_rsa_scheme_of-sum : (s : TpmtRsaScheme) → tpmt_rsa_scheme_of (tpmt_rsa_scheme_sum s) ≡ s
tpmt_rsa_scheme_of-sum (TpmtRsaScheme.rsapss x) = refl
tpmt_rsa_scheme_of-sum (TpmtRsaScheme.rsassa x) = refl
tpmt_rsa_scheme_of-sum (TpmtRsaScheme.ecdsa x) = refl
tpmt_rsa_scheme_of-sum (TpmtRsaScheme.ecdaa x) = refl
tpmt_rsa_scheme_of-sum (TpmtRsaScheme.sm2 x) = refl
tpmt_rsa_scheme_of-sum (TpmtRsaScheme.ecschnorr x) = refl
tpmt_rsa_scheme_of-sum (TpmtRsaScheme.rsaes x) = refl
tpmt_rsa_scheme_of-sum (TpmtRsaScheme.oaep x) = refl
tpmt_rsa_scheme_of-sum (TpmtRsaScheme.null x) = refl

tpmt_rsa_scheme_sum-of : (e : TpmtRsaSchemeSum) → tpmt_rsa_scheme_sum (tpmt_rsa_scheme_of e) ≡ e
tpmt_rsa_scheme_sum-of (inl x) = refl
tpmt_rsa_scheme_sum-of (inr (inl x)) = refl
tpmt_rsa_scheme_sum-of (inr (inr (inl x))) = refl
tpmt_rsa_scheme_sum-of (inr (inr (inr (inl x)))) = refl
tpmt_rsa_scheme_sum-of (inr (inr (inr (inr (inl x))))) = refl
tpmt_rsa_scheme_sum-of (inr (inr (inr (inr (inr (inl x)))))) = refl
tpmt_rsa_scheme_sum-of (inr (inr (inr (inr (inr (inr (inl x))))))) = refl
tpmt_rsa_scheme_sum-of (inr (inr (inr (inr (inr (inr (inr (inl x)))))))) = refl
tpmt_rsa_scheme_sum-of (inr (inr (inr (inr (inr (inr (inr (inr (inl x))))))))) = refl
tpmt_rsa_scheme_sum-of (inr (inr (inr (inr (inr (inr (inr (inr (inr e))))))))) = absurd e

unfoldable pub tpmt_rsa_scheme_variant : MarshalableVariant TpmtRsaScheme
tpmt_rsa_scheme_variant = derive_variant tpmt_rsa_scheme_sum tpmt_rsa_scheme_of (
    variant (tpm_alg_id_number TpmAlgId.rsapss) (field tpms_scheme_hash) (
      variant (tpm_alg_id_number TpmAlgId.rsassa) (field tpms_scheme_hash) (
        variant (tpm_alg_id_number TpmAlgId.ecdsa) (field tpms_scheme_hash) (
          variant (tpm_alg_id_number TpmAlgId.ecdaa) (field tpms_scheme_ecdaa) (
            variant (tpm_alg_id_number TpmAlgId.sm2) (field tpms_scheme_hash) (
              variant (tpm_alg_id_number TpmAlgId.ec_schnorr) (field tpms_scheme_hash) (
                variant (tpm_alg_id_number TpmAlgId.rsaes) (field tpms_empty) (
                  variant (tpm_alg_id_number TpmAlgId.oaep) (field tpms_scheme_hash) (
                    variant (tpm_alg_id_number TpmAlgId.null) (field tpms_empty)
                      no_variants)))))))))

unfoldable pub tpmt_rsa_scheme : Marshalable TpmtRsaScheme
tpmt_rsa_scheme = derive_enum 2 tpmt_rsa_scheme_variant

unfoldable pub tpmt_rsa_scheme_variant_format : Format TpmtRsaScheme
tpmt_rsa_scheme_variant_format = via_format tpmt_rsa_scheme_sum (
    sum_format tpms_scheme_hash_format (
      sum_format tpms_scheme_hash_format (
        sum_format tpms_scheme_hash_format (
          sum_format tpms_scheme_ecdaa_format (
            sum_format tpms_scheme_hash_format (
              sum_format tpms_scheme_hash_format (
                sum_format tpms_empty_format (
                  sum_format tpms_scheme_hash_format
                    (sum_format tpms_empty_format no_format)))))))))

unfoldable pub tpmt_rsa_scheme_format : Format TpmtRsaScheme
tpmt_rsa_scheme_format = enum_format 2 tpmt_rsa_scheme_variant tpmt_rsa_scheme_variant_format

pub tpmt_rsa_scheme_variant-Lawful :
    LawfulVariant 2 tpmt_rsa_scheme_variant tpmt_rsa_scheme_variant_format
unfolding tpmt_rsa_scheme_variant tpmt_rsa_scheme_variant_format
tpmt_rsa_scheme_variant-Lawful =
    derive_variant-Lawful tpmt_rsa_scheme_sum tpmt_rsa_scheme_of tpmt_rsa_scheme_of-sum
      tpmt_rsa_scheme_sum-of
      (variant-Lawful _ _ (field-LawfulFragment tpms_scheme_hash-Lawful)
        (variant-Lawful _ _ (field-LawfulFragment tpms_scheme_hash-Lawful)
          (variant-Lawful _ _ (field-LawfulFragment tpms_scheme_hash-Lawful)
            (variant-Lawful _ _ (field-LawfulFragment tpms_scheme_ecdaa-Lawful)
              (variant-Lawful _ _ (field-LawfulFragment tpms_scheme_hash-Lawful)
                (variant-Lawful _ _ (field-LawfulFragment tpms_scheme_hash-Lawful)
                  (variant-Lawful _ _ (field-LawfulFragment tpms_empty-Lawful)
                    (variant-Lawful _ _ (field-LawfulFragment tpms_scheme_hash-Lawful)
                      (variant-Lawful _ _ (field-LawfulFragment tpms_empty-Lawful)
                        no_variants-Lawful (omega arith))
                      (omega arith))
                    (omega arith))
                  (omega arith))
                (omega arith))
              (omega arith))
            (omega arith))
          (omega arith))
        (omega arith))
      2 (omega arith)

pub tpmt_rsa_scheme-Lawful : Lawful tpmt_rsa_scheme tpmt_rsa_scheme_format
unfolding tpmt_rsa_scheme tpmt_rsa_scheme_format
tpmt_rsa_scheme-Lawful = derive_enum-Lawful tpmt_rsa_scheme_variant-Lawful

-- `TpmsRsaParms`
pub record TpmsRsaParms : Type 0 where
  pub symmetric : TpmtSymDefObject
  pub scheme : TpmtRsaScheme
  pub key_bits : ℕ
  pub exponent : ℕ

abbrev pub tpms_rsa_parms_fields : TpmsRsaParms → (TpmtSymDefObject × (TpmtRsaScheme × (ℕ × ℕ)))
tpms_rsa_parms_fields s = (s.symmetric, (s.scheme, (s.key_bits, s.exponent)))

abbrev pub tpms_rsa_parms_of : (TpmtSymDefObject × (TpmtRsaScheme × (ℕ × ℕ))) → TpmsRsaParms
tpms_rsa_parms_of r = record {
  symmetric = r.0;
  scheme = r.1.0;
  key_bits = r.1.1.0;
  exponent = r.1.1.1;
}

unfoldable pub tpms_rsa_parms : Marshalable TpmsRsaParms
tpms_rsa_parms = derive tpms_rsa_parms_fields tpms_rsa_parms_of (
    field tpmt_sym_def_object then field tpmt_rsa_scheme then field (newtype 2) then field (prim 4))

unfoldable pub tpms_rsa_parms_format : Format TpmsRsaParms
tpms_rsa_parms_format = via_format tpms_rsa_parms_fields (
    pair_format tpmt_sym_def_object_format
      (pair_format tpmt_rsa_scheme_format (pair_format (newtype_format 2) (prim_format 4))))

pub tpms_rsa_parms-Lawful : Lawful tpms_rsa_parms tpms_rsa_parms_format
unfolding tpms_rsa_parms tpms_rsa_parms_format
tpms_rsa_parms-Lawful =
    derive-Lawful tpms_rsa_parms_fields tpms_rsa_parms_of (λ s. refl) (λ r. refl)
      (then-LawfulFragment (field-LawfulFragment tpmt_sym_def_object-Lawful) (
        then-LawfulFragment (field-LawfulFragment tpmt_rsa_scheme-Lawful) (
          then-LawfulFragment (field-LawfulFragment (newtype-Lawful 2))
            (field-LawfulFragment (prim-Lawful 4)))))
