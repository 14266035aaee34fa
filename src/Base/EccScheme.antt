-- ===== src/Base/EccScheme.antt =====
-- base/src/lib.rs: ECC schemes and parameters.
use tpm_rs.Base.Constants.Algorithms.{TpmAlgId, tpm_alg_id_number}
use tpm_rs.Base.Hash.{tpms_empty, tpms_empty_format, tpms_empty-Lawful}
use tpm_rs.Base.KeyedHash.{
  TpmtKdfScheme, tpmt_kdf_scheme, tpmt_kdf_scheme_format, tpmt_kdf_scheme-Lawful,
}
use tpm_rs.Base.Newtype.{newtype, newtype_format, newtype-Lawful}
use tpm_rs.Base.Schemes.{
  TpmsSchemeHash, tpms_scheme_hash, tpms_scheme_hash_format, tpms_scheme_hash-Lawful,
  TpmsSchemeEcdaa, tpms_scheme_ecdaa, tpms_scheme_ecdaa_format, tpms_scheme_ecdaa-Lawful,
  TpmtSymDefObject, tpmt_sym_def_object, tpmt_sym_def_object_format, tpmt_sym_def_object-Lawful,
}
use tpm_rs.Derive.Enum.{MarshalableVariant, no_variants, variant, derive_variant, derive_enum}
use tpm_rs.Derive.EnumLaws.{no_format, sum_format, no_variants-Lawful, variant-Lawful}
use tpm_rs.Derive.VariantLaws.{
  LawfulVariant, enum_format, derive_variant-Lawful, derive_enum-Lawful,
}
use tpm_rs.Derive.Fields.{field, ◌then◌, derive}
use tpm_rs.Derive.Laws.{
  pair_format, via_format, field-LawfulFragment, then-LawfulFragment, derive-Lawful,
}
use tpm_rs.Marshal.Core.{Marshalable}
use tpm_rs.Marshal.Lawful.{Format, Lawful}
use tpm_rs.Prelude.{ℕ, ◌≡◌, refl, arith, ◌⊎◌, inl, inr}

-- `TpmtEccScheme`
pub data TpmtEccScheme : Type 0 where
  rsapss : TpmsSchemeHash → TpmtEccScheme
  rsassa : TpmsSchemeHash → TpmtEccScheme
  ecdsa : TpmsSchemeHash → TpmtEccScheme
  ecdaa : TpmsSchemeEcdaa → TpmtEccScheme
  sm2 : TpmsSchemeHash → TpmtEccScheme
  ecschnorr : TpmsSchemeHash → TpmtEccScheme
  ecdh : TpmsSchemeHash → TpmtEccScheme
  ecmqv : TpmsSchemeHash → TpmtEccScheme
  null : Unit {0} → TpmtEccScheme

abbrev pub TpmtEccSchemeSum : Type 0
TpmtEccSchemeSum =
    TpmsSchemeHash
    ⊎ (TpmsSchemeHash
        ⊎ (TpmsSchemeHash
            ⊎ (TpmsSchemeEcdaa
                ⊎ (TpmsSchemeHash
                    ⊎ (TpmsSchemeHash ⊎ (TpmsSchemeHash ⊎ (TpmsSchemeHash ⊎ ((Unit {0}) ⊎ ⊥))))))))

abbrev pub tpmt_ecc_scheme_sum : TpmtEccScheme → TpmtEccSchemeSum
tpmt_ecc_scheme_sum (TpmtEccScheme.rsapss x) = inl x
tpmt_ecc_scheme_sum (TpmtEccScheme.rsassa x) = inr (inl x)
tpmt_ecc_scheme_sum (TpmtEccScheme.ecdsa x) = inr (inr (inl x))
tpmt_ecc_scheme_sum (TpmtEccScheme.ecdaa x) = inr (inr (inr (inl x)))
tpmt_ecc_scheme_sum (TpmtEccScheme.sm2 x) = inr (inr (inr (inr (inl x))))
tpmt_ecc_scheme_sum (TpmtEccScheme.ecschnorr x) = inr (inr (inr (inr (inr (inl x)))))
tpmt_ecc_scheme_sum (TpmtEccScheme.ecdh x) = inr (inr (inr (inr (inr (inr (inl x))))))
tpmt_ecc_scheme_sum (TpmtEccScheme.ecmqv x) = inr (inr (inr (inr (inr (inr (inr (inl x)))))))
tpmt_ecc_scheme_sum (TpmtEccScheme.null x) = inr (inr (inr (inr (inr (inr (inr (inr (inl x))))))))

abbrev pub tpmt_ecc_scheme_of : TpmtEccSchemeSum → TpmtEccScheme
tpmt_ecc_scheme_of (inl x) = TpmtEccScheme.rsapss x
tpmt_ecc_scheme_of (inr (inl x)) = TpmtEccScheme.rsassa x
tpmt_ecc_scheme_of (inr (inr (inl x))) = TpmtEccScheme.ecdsa x
tpmt_ecc_scheme_of (inr (inr (inr (inl x)))) = TpmtEccScheme.ecdaa x
tpmt_ecc_scheme_of (inr (inr (inr (inr (inl x))))) = TpmtEccScheme.sm2 x
tpmt_ecc_scheme_of (inr (inr (inr (inr (inr (inl x)))))) = TpmtEccScheme.ecschnorr x
tpmt_ecc_scheme_of (inr (inr (inr (inr (inr (inr (inl x))))))) = TpmtEccScheme.ecdh x
tpmt_ecc_scheme_of (inr (inr (inr (inr (inr (inr (inr (inl x)))))))) = TpmtEccScheme.ecmqv x
tpmt_ecc_scheme_of (inr (inr (inr (inr (inr (inr (inr (inr (inl x))))))))) = TpmtEccScheme.null x
tpmt_ecc_scheme_of (inr (inr (inr (inr (inr (inr (inr (inr (inr e))))))))) = absurd e

tpmt_ecc_scheme_of-sum : (s : TpmtEccScheme) → tpmt_ecc_scheme_of (tpmt_ecc_scheme_sum s) ≡ s
tpmt_ecc_scheme_of-sum (TpmtEccScheme.rsapss x) = refl
tpmt_ecc_scheme_of-sum (TpmtEccScheme.rsassa x) = refl
tpmt_ecc_scheme_of-sum (TpmtEccScheme.ecdsa x) = refl
tpmt_ecc_scheme_of-sum (TpmtEccScheme.ecdaa x) = refl
tpmt_ecc_scheme_of-sum (TpmtEccScheme.sm2 x) = refl
tpmt_ecc_scheme_of-sum (TpmtEccScheme.ecschnorr x) = refl
tpmt_ecc_scheme_of-sum (TpmtEccScheme.ecdh x) = refl
tpmt_ecc_scheme_of-sum (TpmtEccScheme.ecmqv x) = refl
tpmt_ecc_scheme_of-sum (TpmtEccScheme.null x) = refl

tpmt_ecc_scheme_sum-of : (e : TpmtEccSchemeSum) → tpmt_ecc_scheme_sum (tpmt_ecc_scheme_of e) ≡ e
tpmt_ecc_scheme_sum-of (inl x) = refl
tpmt_ecc_scheme_sum-of (inr (inl x)) = refl
tpmt_ecc_scheme_sum-of (inr (inr (inl x))) = refl
tpmt_ecc_scheme_sum-of (inr (inr (inr (inl x)))) = refl
tpmt_ecc_scheme_sum-of (inr (inr (inr (inr (inl x))))) = refl
tpmt_ecc_scheme_sum-of (inr (inr (inr (inr (inr (inl x)))))) = refl
tpmt_ecc_scheme_sum-of (inr (inr (inr (inr (inr (inr (inl x))))))) = refl
tpmt_ecc_scheme_sum-of (inr (inr (inr (inr (inr (inr (inr (inl x)))))))) = refl
tpmt_ecc_scheme_sum-of (inr (inr (inr (inr (inr (inr (inr (inr (inl x))))))))) = refl
tpmt_ecc_scheme_sum-of (inr (inr (inr (inr (inr (inr (inr (inr (inr e))))))))) = absurd e

unfoldable pub tpmt_ecc_scheme_variant : MarshalableVariant TpmtEccScheme
tpmt_ecc_scheme_variant = derive_variant tpmt_ecc_scheme_sum tpmt_ecc_scheme_of (
    variant (tpm_alg_id_number TpmAlgId.rsapss) (field tpms_scheme_hash) (
      variant (tpm_alg_id_number TpmAlgId.rsassa) (field tpms_scheme_hash) (
        variant (tpm_alg_id_number TpmAlgId.ecdsa) (field tpms_scheme_hash) (
          variant (tpm_alg_id_number TpmAlgId.ecdaa) (field tpms_scheme_ecdaa) (
            variant (tpm_alg_id_number TpmAlgId.sm2) (field tpms_scheme_hash) (
              variant (tpm_alg_id_number TpmAlgId.ec_schnorr) (field tpms_scheme_hash) (
                variant (tpm_alg_id_number TpmAlgId.ecdh) (field tpms_scheme_hash) (
                  variant (tpm_alg_id_number TpmAlgId.ecmqv) (field tpms_scheme_hash) (
                    variant (tpm_alg_id_number TpmAlgId.null) (field tpms_empty)
                      no_variants)))))))))

unfoldable pub tpmt_ecc_scheme : Marshalable TpmtEccScheme
tpmt_ecc_scheme = derive_enum 2 tpmt_ecc_scheme_variant

unfoldable pub tpmt_ecc_scheme_variant_format : Format TpmtEccScheme
tpmt_ecc_scheme_variant_format = via_format tpmt_ecc_scheme_sum (
    sum_format tpms_scheme_hash_format (
      sum_format tpms_scheme_hash_format (
        sum_format tpms_scheme_hash_format (
          sum_format tpms_scheme_ecdaa_format (
            sum_format tpms_scheme_hash_format (
              sum_format tpms_scheme_hash_format (
                sum_format tpms_scheme_hash_format (
                  sum_format tpms_scheme_hash_format
                    (sum_format tpms_empty_format no_format)))))))))

unfoldable pub tpmt_ecc_scheme_format : Format TpmtEccScheme
tpmt_ecc_scheme_format = enum_format 2 tpmt_ecc_scheme_variant tpmt_ecc_scheme_variant_format

pub tpmt_ecc_scheme_variant-Lawful :
    LawfulVariant 2 tpmt_ecc_scheme_variant tpmt_ecc_scheme_variant_format
unfolding tpmt_ecc_scheme_variant tpmt_ecc_scheme_variant_format
tpmt_ecc_scheme_variant-Lawful =
    derive_variant-Lawful tpmt_ecc_scheme_sum tpmt_ecc_scheme_of tpmt_ecc_scheme_of-sum
      tpmt_ecc_scheme_sum-of
      (variant-Lawful _ _ (field-LawfulFragment tpms_scheme_hash-Lawful)
        (variant-Lawful _ _ (field-LawfulFragment tpms_scheme_hash-Lawful)
          (variant-Lawful _ _ (field-LawfulFragment tpms_scheme_hash-Lawful)
            (variant-Lawful _ _ (field-LawfulFragment tpms_scheme_ecdaa-Lawful)
              (variant-Lawful _ _ (field-LawfulFragment tpms_scheme_hash-Lawful)
                (variant-Lawful _ _ (field-LawfulFragment tpms_scheme_hash-Lawful)
                  (variant-Lawful _ _ (field-LawfulFragment tpms_scheme_hash-Lawful)
                    (variant-Lawful _ _ (field-LawfulFragment tpms_scheme_hash-Lawful)
                      (variant-Lawful _ _ (field-LawfulFragment tpms_empty-Lawful)
                        no_variants-Lawful (omega arith))
                      (omega arith))
                    (omega arith))
                  (omega arith))
                (omega arith))
              (omega arith))
            (omega arith))
          (omega arith))
        (omega arith))
      2 (omega arith)

pub tpmt_ecc_scheme-Lawful : Lawful tpmt_ecc_scheme tpmt_ecc_scheme_format
unfolding tpmt_ecc_scheme tpmt_ecc_scheme_format
tpmt_ecc_scheme-Lawful = derive_enum-Lawful tpmt_ecc_scheme_variant-Lawful

-- `TpmsEccParms`
pub record TpmsEccParms : Type 0 where
  pub symmetric : TpmtSymDefObject
  pub scheme : TpmtEccScheme
  pub curve_id : ℕ
  pub kdf : TpmtKdfScheme

abbrev pub tpms_ecc_parms_fields :
    TpmsEccParms → (TpmtSymDefObject × (TpmtEccScheme × (ℕ × TpmtKdfScheme)))
tpms_ecc_parms_fields s = (s.symmetric, (s.scheme, (s.curve_id, s.kdf)))

abbrev pub tpms_ecc_parms_of :
    (TpmtSymDefObject × (TpmtEccScheme × (ℕ × TpmtKdfScheme))) → TpmsEccParms
tpms_ecc_parms_of r = record { symmetric = r.0; scheme = r.1.0; curve_id = r.1.1.0; kdf = r.1.1.1 }

unfoldable pub tpms_ecc_parms : Marshalable TpmsEccParms
tpms_ecc_parms = derive tpms_ecc_parms_fields tpms_ecc_parms_of (
    field tpmt_sym_def_object
    then field tpmt_ecc_scheme
    then field (newtype 2)
    then field tpmt_kdf_scheme)

unfoldable pub tpms_ecc_parms_format : Format TpmsEccParms
tpms_ecc_parms_format = via_format tpms_ecc_parms_fields (
    pair_format tpmt_sym_def_object_format
      (pair_format tpmt_ecc_scheme_format (pair_format (newtype_format 2) tpmt_kdf_scheme_format)))

pub tpms_ecc_parms-Lawful : Lawful tpms_ecc_parms tpms_ecc_parms_format
unfolding tpms_ecc_parms tpms_ecc_parms_format
tpms_ecc_parms-Lawful =
    derive-Lawful tpms_ecc_parms_fields tpms_ecc_parms_of (λ s. refl) (λ r. refl)
      (then-LawfulFragment (field-LawfulFragment tpmt_sym_def_object-Lawful) (
        then-LawfulFragment (field-LawfulFragment tpmt_ecc_scheme-Lawful) (
          then-LawfulFragment (field-LawfulFragment (newtype-Lawful 2))
            (field-LawfulFragment tpmt_kdf_scheme-Lawful))))
