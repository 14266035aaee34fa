-- ===== src/Base/KeyedHash.antt =====
-- base/src/lib.rs: keyed hash schemes and key derivation.
use tpm_rs.Base.Constants.Algorithms.{TpmAlgId, tpm_alg_id_number}
use tpm_rs.Base.Hash.{tpms_empty, tpms_empty_format, tpms_empty-Lawful}
use tpm_rs.Base.Schemes.{
  TpmsSchemeHash, tpms_scheme_hash, tpms_scheme_hash_format, tpms_scheme_hash-Lawful, TpmsSchemeXor,
  tpms_scheme_xor, tpms_scheme_xor_format, tpms_scheme_xor-Lawful,
}
use tpm_rs.Derive.Enum.{MarshalableVariant, no_variants, variant, derive_variant, derive_enum}
use tpm_rs.Derive.EnumLaws.{no_format, sum_format, no_variants-Lawful, variant-Lawful}
use tpm_rs.Derive.VariantLaws.{
  LawfulVariant, enum_format, derive_variant-Lawful, derive_enum-Lawful,
}
use tpm_rs.Derive.Fields.{field, derive}
use tpm_rs.Derive.Laws.{via_format, field-LawfulFragment, derive-Lawful}
use tpm_rs.Marshal.Core.{Marshalable}
use tpm_rs.Marshal.Lawful.{Format, Lawful}
use tpm_rs.Prelude.{◌≡◌, refl, arith, ◌⊎◌, inl, inr}

-- `TpmtKeyedHashScheme`
pub data TpmtKeyedHashScheme : Type 0 where
  hmac : TpmsSchemeHash → TpmtKeyedHashScheme
  exclusive_or : TpmsSchemeXor → TpmtKeyedHashScheme
  null : Unit {0} → TpmtKeyedHashScheme

abbrev pub TpmtKeyedHashSchemeSum : Type 0
TpmtKeyedHashSchemeSum = TpmsSchemeHash ⊎ (TpmsSchemeXor ⊎ ((Unit {0}) ⊎ ⊥))

abbrev pub tpmt_keyed_hash_scheme_sum : TpmtKeyedHashScheme → TpmtKeyedHashSchemeSum
tpmt_keyed_hash_scheme_sum (TpmtKeyedHashScheme.hmac x) = inl x
tpmt_keyed_hash_scheme_sum (TpmtKeyedHashScheme.exclusive_or x) = inr (inl x)
tpmt_keyed_hash_scheme_sum (TpmtKeyedHashScheme.null x) = inr (inr (inl x))

abbrev pub tpmt_keyed_hash_scheme_of : TpmtKeyedHashSchemeSum → TpmtKeyedHashScheme
tpmt_keyed_hash_scheme_of (inl x) = TpmtKeyedHashScheme.hmac x
tpmt_keyed_hash_scheme_of (inr (inl x)) = TpmtKeyedHashScheme.exclusive_or x
tpmt_keyed_hash_scheme_of (inr (inr (inl x))) = TpmtKeyedHashScheme.null x
tpmt_keyed_hash_scheme_of (inr (inr (inr e))) = absurd e

tpmt_keyed_hash_scheme_of-sum :
    (s : TpmtKeyedHashScheme) → tpmt_keyed_hash_scheme_of (tpmt_keyed_hash_scheme_sum s) ≡ s
tpmt_keyed_hash_scheme_of-sum (TpmtKeyedHashScheme.hmac x) = refl
tpmt_keyed_hash_scheme_of-sum (TpmtKeyedHashScheme.exclusive_or x) = refl
tpmt_keyed_hash_scheme_of-sum (TpmtKeyedHashScheme.null x) = refl

tpmt_keyed_hash_scheme_sum-of :
    (e : TpmtKeyedHashSchemeSum) → tpmt_keyed_hash_scheme_sum (tpmt_keyed_hash_scheme_of e) ≡ e
tpmt_keyed_hash_scheme_sum-of (inl x) = refl
tpmt_keyed_hash_scheme_sum-of (inr (inl x)) = refl
tpmt_keyed_hash_scheme_sum-of (inr (inr (inl x))) = refl
tpmt_keyed_hash_scheme_sum-of (inr (inr (inr e))) = absurd e

unfoldable pub tpmt_keyed_hash_scheme_variant : MarshalableVariant TpmtKeyedHashScheme
tpmt_keyed_hash_scheme_variant =
    derive_variant tpmt_keyed_hash_scheme_sum tpmt_keyed_hash_scheme_of (
      variant (tpm_alg_id_number TpmAlgId.hmac) (field tpms_scheme_hash) (
        variant (tpm_alg_id_number TpmAlgId.xor) (field tpms_scheme_xor)
          (variant (tpm_alg_id_number TpmAlgId.null) (field tpms_empty) no_variants)))

unfoldable pub tpmt_keyed_hash_scheme : Marshalable TpmtKeyedHashScheme
tpmt_keyed_hash_scheme = derive_enum 2 tpmt_keyed_hash_scheme_variant

unfoldable pub tpmt_keyed_hash_scheme_variant_format : Format TpmtKeyedHashScheme
tpmt_keyed_hash_scheme_variant_format = via_format tpmt_keyed_hash_scheme_sum (
    sum_format tpms_scheme_hash_format
      (sum_format tpms_scheme_xor_format (sum_format tpms_empty_format no_format)))

unfoldable pub tpmt_keyed_hash_scheme_format : Format TpmtKeyedHashScheme
tpmt_keyed_hash_scheme_format =
    enum_format 2 tpmt_keyed_hash_scheme_variant tpmt_keyed_hash_scheme_variant_format

pub tpmt_keyed_hash_scheme_variant-Lawful :
    LawfulVariant 2 tpmt_keyed_hash_scheme_variant tpmt_keyed_hash_scheme_variant_format
unfolding tpmt_keyed_hash_scheme_variant tpmt_keyed_hash_scheme_variant_format
tpmt_keyed_hash_scheme_variant-Lawful =
    derive_variant-Lawful tpmt_keyed_hash_scheme_sum tpmt_keyed_hash_scheme_of
      tpmt_keyed_hash_scheme_of-sum tpmt_keyed_hash_scheme_sum-of
      (variant-Lawful _ _ (field-LawfulFragment tpms_scheme_hash-Lawful)
        (variant-Lawful _ _ (field-LawfulFragment tpms_scheme_xor-Lawful)
          (variant-Lawful _ _ (field-LawfulFragment tpms_empty-Lawful) no_variants-Lawful
            (omega arith))
          (omega arith))
        (omega arith))
      2 (omega arith)

pub tpmt_keyed_hash_scheme-Lawful : Lawful tpmt_keyed_hash_scheme tpmt_keyed_hash_scheme_format
unfolding tpmt_keyed_hash_scheme tpmt_keyed_hash_scheme_format
tpmt_keyed_hash_scheme-Lawful = derive_enum-Lawful tpmt_keyed_hash_scheme_variant-Lawful

-- `TpmsKeyedHashParms`
pub record TpmsKeyedHashParms : Type 0 where
  pub scheme : TpmtKeyedHashScheme

abbrev pub tpms_keyed_hash_parms_fields : TpmsKeyedHashParms → TpmtKeyedHashScheme
tpms_keyed_hash_parms_fields s = s.scheme

abbrev pub tpms_keyed_hash_parms_of : TpmtKeyedHashScheme → TpmsKeyedHashParms
tpms_keyed_hash_parms_of r = record { scheme = r }

unfoldable pub tpms_keyed_hash_parms : Marshalable TpmsKeyedHashParms
tpms_keyed_hash_parms =
    derive tpms_keyed_hash_parms_fields tpms_keyed_hash_parms_of (field tpmt_keyed_hash_scheme)

unfoldable pub tpms_keyed_hash_parms_format : Format TpmsKeyedHashParms
tpms_keyed_hash_parms_format = via_format tpms_keyed_hash_parms_fields tpmt_keyed_hash_scheme_format

pub tpms_keyed_hash_parms-Lawful : Lawful tpms_keyed_hash_parms tpms_keyed_hash_parms_format
unfolding tpms_keyed_hash_parms tpms_keyed_hash_parms_format
tpms_keyed_hash_parms-Lawful =
    derive-Lawful tpms_keyed_hash_parms_fields tpms_keyed_hash_parms_of (λ s. refl) (λ r. refl)
      (field-LawfulFragment tpmt_keyed_hash_scheme-Lawful)

-- `TpmtKdfScheme`
pub data TpmtKdfScheme : Type 0 where
  mgf1 : TpmsSchemeHash → TpmtKdfScheme
  kdf1_sp800_56a : TpmsSchemeHash → TpmtKdfScheme
  kdf2 : TpmsSchemeHash → TpmtKdfScheme
  kdf1_sp800_108 : TpmsSchemeHash → TpmtKdfScheme
  null : Unit {0} → TpmtKdfScheme

abbrev pub TpmtKdfSchemeSum : Type 0
TpmtKdfSchemeSum =
    TpmsSchemeHash ⊎ (TpmsSchemeHash ⊎ (TpmsSchemeHash ⊎ (TpmsSchemeHash ⊎ ((Unit {0}) ⊎ ⊥))))

abbrev pub tpmt_kdf_scheme_sum : TpmtKdfScheme → TpmtKdfSchemeSum
tpmt_kdf_scheme_sum (TpmtKdfScheme.mgf1 x) = inl x
tpmt_kdf_scheme_sum (TpmtKdfScheme.kdf1_sp800_56a x) = inr (inl x)
tpmt_kdf_scheme_sum (TpmtKdfScheme.kdf2 x) = inr (inr (inl x))
tpmt_kdf_scheme_sum (TpmtKdfScheme.kdf1_sp800_108 x) = inr (inr (inr (inl x)))
tpmt_kdf_scheme_sum (TpmtKdfScheme.null x) = inr (inr (inr (inr (inl x))))

abbrev pub tpmt_kdf_scheme_of : TpmtKdfSchemeSum → TpmtKdfScheme
tpmt_kdf_scheme_of (inl x) = TpmtKdfScheme.mgf1 x
tpmt_kdf_scheme_of (inr (inl x)) = TpmtKdfScheme.kdf1_sp800_56a x
tpmt_kdf_scheme_of (inr (inr (inl x))) = TpmtKdfScheme.kdf2 x
tpmt_kdf_scheme_of (inr (inr (inr (inl x)))) = TpmtKdfScheme.kdf1_sp800_108 x
tpmt_kdf_scheme_of (inr (inr (inr (inr (inl x))))) = TpmtKdfScheme.null x
tpmt_kdf_scheme_of (inr (inr (inr (inr (inr e))))) = absurd e

tpmt_kdf_scheme_of-sum : (s : TpmtKdfScheme) → tpmt_kdf_scheme_of (tpmt_kdf_scheme_sum s) ≡ s
tpmt_kdf_scheme_of-sum (TpmtKdfScheme.mgf1 x) = refl
tpmt_kdf_scheme_of-sum (TpmtKdfScheme.kdf1_sp800_56a x) = refl
tpmt_kdf_scheme_of-sum (TpmtKdfScheme.kdf2 x) = refl
tpmt_kdf_scheme_of-sum (TpmtKdfScheme.kdf1_sp800_108 x) = refl
tpmt_kdf_scheme_of-sum (TpmtKdfScheme.null x) = refl

tpmt_kdf_scheme_sum-of : (e : TpmtKdfSchemeSum) → tpmt_kdf_scheme_sum (tpmt_kdf_scheme_of e) ≡ e
tpmt_kdf_scheme_sum-of (inl x) = refl
tpmt_kdf_scheme_sum-of (inr (inl x)) = refl
tpmt_kdf_scheme_sum-of (inr (inr (inl x))) = refl
tpmt_kdf_scheme_sum-of (inr (inr (inr (inl x)))) = refl
tpmt_kdf_scheme_sum-of (inr (inr (inr (inr (inl x))))) = refl
tpmt_kdf_scheme_sum-of (inr (inr (inr (inr (inr e))))) = absurd e

unfoldable pub tpmt_kdf_scheme_variant : MarshalableVariant TpmtKdfScheme
tpmt_kdf_scheme_variant = derive_variant tpmt_kdf_scheme_sum tpmt_kdf_scheme_of (
    variant (tpm_alg_id_number TpmAlgId.mgf1) (field tpms_scheme_hash) (
      variant (tpm_alg_id_number TpmAlgId.kdf1_sp80056_a) (field tpms_scheme_hash) (
        variant (tpm_alg_id_number TpmAlgId.kdf2) (field tpms_scheme_hash) (
          variant (tpm_alg_id_number TpmAlgId.kdf1_sp800108) (field tpms_scheme_hash)
            (variant (tpm_alg_id_number TpmAlgId.null) (field tpms_empty) no_variants)))))

unfoldable pub tpmt_kdf_scheme : Marshalable TpmtKdfScheme
tpmt_kdf_scheme = derive_enum 2 tpmt_kdf_scheme_variant

unfoldable pub tpmt_kdf_scheme_variant_format : Format TpmtKdfScheme
tpmt_kdf_scheme_variant_format = via_format tpmt_kdf_scheme_sum (
    sum_format tpms_scheme_hash_format (
      sum_format tpms_scheme_hash_format (
        sum_format tpms_scheme_hash_format
          (sum_format tpms_scheme_hash_format (sum_format tpms_empty_format no_format)))))

unfoldable pub tpmt_kdf_scheme_format : Format TpmtKdfScheme
tpmt_kdf_scheme_format = enum_format 2 tpmt_kdf_scheme_variant tpmt_kdf_scheme_variant_format

pub tpmt_kdf_scheme_variant-Lawful :
    LawfulVariant 2 tpmt_kdf_scheme_variant tpmt_kdf_scheme_variant_format
unfolding tpmt_kdf_scheme_variant tpmt_kdf_scheme_variant_format
tpmt_kdf_scheme_variant-Lawful =
    derive_variant-Lawful tpmt_kdf_scheme_sum tpmt_kdf_scheme_of tpmt_kdf_scheme_of-sum
      tpmt_kdf_scheme_sum-of
      (variant-Lawful _ _ (field-LawfulFragment tpms_scheme_hash-Lawful)
        (variant-Lawful _ _ (field-LawfulFragment tpms_scheme_hash-Lawful)
          (variant-Lawful _ _ (field-LawfulFragment tpms_scheme_hash-Lawful)
            (variant-Lawful _ _ (field-LawfulFragment tpms_scheme_hash-Lawful)
              (variant-Lawful _ _ (field-LawfulFragment tpms_empty-Lawful) no_variants-Lawful
                (omega arith))
              (omega arith))
            (omega arith))
          (omega arith))
        (omega arith))
      2 (omega arith)

pub tpmt_kdf_scheme-Lawful : Lawful tpmt_kdf_scheme tpmt_kdf_scheme_format
unfolding tpmt_kdf_scheme tpmt_kdf_scheme_format
tpmt_kdf_scheme-Lawful = derive_enum-Lawful tpmt_kdf_scheme_variant-Lawful
