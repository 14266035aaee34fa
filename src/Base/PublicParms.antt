-- ===== src/Base/PublicParms.antt =====
-- base/src/lib.rs: public parameters with the unique identifier.
use tpm_rs.Base.Buffers.{
  tpm2b_digest, tpm2b_digest_format, tpm2b_digest-Lawful, tpm2b_label, tpm2b_label_format,
  tpm2b_label-Lawful,
}
use tpm_rs.Base.Constants.Algorithms.{TpmAlgId, tpm_alg_id_number}
use tpm_rs.Base.EccScheme.{
  TpmsEccParms, tpms_ecc_parms, tpms_ecc_parms_format, tpms_ecc_parms-Lawful,
}
use tpm_rs.Base.KeyedHash.{
  TpmsKeyedHashParms, tpms_keyed_hash_parms, tpms_keyed_hash_parms_format,
  tpms_keyed_hash_parms-Lawful,
}
use tpm_rs.Base.MoreBuffers.{
  tpm2b_public_key_rsa, tpm2b_public_key_rsa_format, tpm2b_public_key_rsa-Lawful,
  tpm2b_ecc_parameter, tpm2b_ecc_parameter_format, tpm2b_ecc_parameter-Lawful,
}
use tpm_rs.Base.RsaScheme.{
  TpmsRsaParms, tpms_rsa_parms, tpms_rsa_parms_format, tpms_rsa_parms-Lawful,
}
use tpm_rs.Base.Schemes.{
  TpmsSymCipherParms, tpms_sym_cipher_parms, tpms_sym_cipher_parms_format,
  tpms_sym_cipher_parms-Lawful,
}
use tpm_rs.Derive.Enum.{MarshalableVariant, no_variants, variant, derive_variant, derive_enum}
use tpm_rs.Derive.EnumLaws.{no_format, sum_format, no_variants-Lawful, variant-Lawful}
use tpm_rs.Derive.VariantLaws.{
  LawfulVariant, enum_format, derive_variant-Lawful, derive_enum-Lawful,
}
use tpm_rs.Derive.Fields.{field, ◌then◌, derive}
use tpm_rs.Derive.Laws.{
  pair_format, via_format, field-LawfulFragment, then-LawfulFragment, derive-Lawful,
}
use tpm_rs.Marshal.Core.{Marshalable}
use tpm_rs.Marshal.Lawful.{Format, Lawful}
use tpm_rs.Prelude.{◌≡◌, refl, arith, ◌⊎◌, inl, inr}
use tpm_rs.Tpm2b.Simple.{Tpm2b}

-- `TpmsEccPoint`
pub record TpmsEccPoint : Type 0 where
  pub x : Tpm2b
  pub y : Tpm2b

abbrev pub tpms_ecc_point_fields : TpmsEccPoint → (Tpm2b × Tpm2b)
tpms_ecc_point_fields s = (s.x, s.y)

abbrev pub tpms_ecc_point_of : (Tpm2b × Tpm2b) → TpmsEccPoint
tpms_ecc_point_of r = record { x = r.0; y = r.1 }

unfoldable pub tpms_ecc_point : Marshalable TpmsEccPoint
tpms_ecc_point =
    derive tpms_ecc_point_fields tpms_ecc_point_of
      (field tpm2b_ecc_parameter then field tpm2b_ecc_parameter)

unfoldable pub tpms_ecc_point_format : Format TpmsEccPoint
tpms_ecc_point_format =
    via_format tpms_ecc_point_fields
      (pair_format tpm2b_ecc_parameter_format tpm2b_ecc_parameter_format)

pub tpms_ecc_point-Lawful : Lawful tpms_ecc_point tpms_ecc_point_format
unfolding tpms_ecc_point tpms_ecc_point_format
tpms_ecc_point-Lawful =
    derive-Lawful tpms_ecc_point_fields tpms_ecc_point_of (λ s. refl) (λ r. refl)
      (then-LawfulFragment (field-LawfulFragment tpm2b_ecc_parameter-Lawful)
        (field-LawfulFragment tpm2b_ecc_parameter-Lawful))

-- `TpmsDerive`
pub record TpmsDerive : Type 0 where
  pub label : Tpm2b
  pub context : Tpm2b

abbrev pub tpms_derive_fields : TpmsDerive → (Tpm2b × Tpm2b)
tpms_derive_fields s = (s.label, s.context)

abbrev pub tpms_derive_of : (Tpm2b × Tpm2b) → TpmsDerive
tpms_derive_of r = record { label = r.0; context = r.1 }

unfoldable pub tpms_derive : Marshalable TpmsDerive
tpms_derive = derive tpms_derive_fields tpms_derive_of (field tpm2b_label then field tpm2b_label)

unfoldable pub tpms_derive_format : Format TpmsDerive
tpms_derive_format =
    via_format tpms_derive_fields (pair_format tpm2b_label_format tpm2b_label_format)

pub tpms_derive-Lawful : Lawful tpms_derive tpms_derive_format
unfolding tpms_derive tpms_derive_format
tpms_derive-Lawful =
    derive-Lawful tpms_derive_fields tpms_derive_of (λ s. refl) (λ r. refl)
      (then-LawfulFragment (field-LawfulFragment tpm2b_label-Lawful)
        (field-LawfulFragment tpm2b_label-Lawful))

-- `PublicParmsAndId`
pub data PublicParmsAndId : Type 0 where
  keyed_hash : TpmsKeyedHashParms → Tpm2b → PublicParmsAndId
  sym : TpmsSymCipherParms → Tpm2b → PublicParmsAndId
  rsa : TpmsRsaParms → Tpm2b → PublicParmsAndId
  ecc : TpmsEccParms → TpmsEccPoint → PublicParmsAndId

abbrev pub PublicParmsAndIdSum : Type 0
PublicParmsAndIdSum =
    (TpmsKeyedHashParms × Tpm2b)
    ⊎ ((TpmsSymCipherParms × Tpm2b)
        ⊎ ((TpmsRsaParms × Tpm2b) ⊎ ((TpmsEccParms × TpmsEccPoint) ⊎ ⊥)))

abbrev pub public_parms_and_id_sum : PublicParmsAndId → PublicParmsAndIdSum
public_parms_and_id_sum (PublicParmsAndId.keyed_hash x y) = inl (x, y)
public_parms_and_id_sum (PublicParmsAndId.sym x y) = inr (inl (x, y))
public_parms_and_id_sum (PublicParmsAndId.rsa x y) = inr (inr (inl (x, y)))
public_parms_and_id_sum (PublicParmsAndId.ecc x y) = inr (inr (inr (inl (x, y))))

abbrev pub public_parms_and_id_of : PublicParmsAndIdSum → PublicParmsAndId
public_parms_and_id_of (inl (x, y)) = PublicParmsAndId.keyed_hash x y
public_parms_and_id_of (inr (inl (x, y))) = PublicParmsAndId.sym x y
public_parms_and_id_of (inr (inr (inl (x, y)))) = PublicParmsAndId.rsa x y
public_parms_and_id_of (inr (inr (inr (inl (x, y))))) = PublicParmsAndId.ecc x y
public_parms_and_id_of (inr (inr (inr (inr e)))) = absurd e

public_parms_and_id_of-sum :
    (s : PublicParmsAndId) → public_parms_and_id_of (public_parms_and_id_sum s) ≡ s
public_parms_and_id_of-sum (PublicParmsAndId.keyed_hash x y) = refl
public_parms_and_id_of-sum (PublicParmsAndId.sym x y) = refl
public_parms_and_id_of-sum (PublicParmsAndId.rsa x y) = refl
public_parms_and_id_of-sum (PublicParmsAndId.ecc x y) = refl

public_parms_and_id_sum-of :
    (e : PublicParmsAndIdSum) → public_parms_and_id_sum (public_parms_and_id_of e) ≡ e
public_parms_and_id_sum-of (inl (x, y)) = refl
public_parms_and_id_sum-of (inr (inl (x, y))) = refl
public_parms_and_id_sum-of (inr (inr (inl (x, y)))) = refl
public_parms_and_id_sum-of (inr (inr (inr (inl (x, y))))) = refl
public_parms_and_id_sum-of (inr (inr (inr (inr e)))) = absurd e

unfoldable pub public_parms_and_id_variant : MarshalableVariant PublicParmsAndId
public_parms_and_id_variant = derive_variant public_parms_and_id_sum public_parms_and_id_of (
    variant (tpm_alg_id_number TpmAlgId.keyed_hash)
      (field tpms_keyed_hash_parms then field tpm2b_digest)
      (variant (tpm_alg_id_number TpmAlgId.sym_cipher)
        (field tpms_sym_cipher_parms then field tpm2b_digest)
        (variant (tpm_alg_id_number TpmAlgId.rsa)
          (field tpms_rsa_parms then field tpm2b_public_key_rsa)
          (variant (tpm_alg_id_number TpmAlgId.ecc) (field tpms_ecc_parms then field tpms_ecc_point)
            no_variants))))

unfoldable pub public_parms_and_id : Marshalable PublicParmsAndId
public_parms_and_id = derive_enum 2 public_parms_and_id_variant

unfoldable pub public_parms_and_id_variant_format : Format PublicParmsAndId
public_parms_and_id_variant_format = via_format public_parms_and_id_sum (
    sum_format (pair_format tpms_keyed_hash_parms_format tpm2b_digest_format) (
      sum_format (pair_format tpms_sym_cipher_parms_format tpm2b_digest_format) (
        sum_format (pair_format tpms_rsa_parms_format tpm2b_public_key_rsa_format)
          (sum_format (pair_format tpms_ecc_parms_format tpms_ecc_point_format) no_format))))

unfoldable pub public_parms_and_id_format : Format PublicParmsAndId
public_parms_and_id_format =
    enum_format 2 public_parms_and_id_variant public_parms_and_id_variant_format

pub public_parms_and_id_variant-Lawful :
    LawfulVariant 2 public_parms_and_id_variant public_parms_and_id_variant_format
unfolding public_parms_and_id_variant public_parms_and_id_variant_format
public_parms_and_id_variant-Lawful =
    derive_variant-Lawful public_parms_and_id_sum public_parms_and_id_of public_parms_and_id_of-sum
      public_parms_and_id_sum-of
      (variant-Lawful _ _
        (then-LawfulFragment (field-LawfulFragment tpms_keyed_hash_parms-Lawful)
          (field-LawfulFragment tpm2b_digest-Lawful))
        (variant-Lawful _ _
          (then-LawfulFragment (field-LawfulFragment tpms_sym_cipher_parms-Lawful)
            (field-LawfulFragment tpm2b_digest-Lawful))
          (variant-Lawful _ _
            (then-LawfulFragment (field-LawfulFragment tpms_rsa_parms-Lawful)
              (field-LawfulFragment tpm2b_public_key_rsa-Lawful))
            (variant-Lawful _ _
              (then-LawfulFragment (field-LawfulFragment tpms_ecc_parms-Lawful)
                (field-LawfulFragment tpms_ecc_point-Lawful))
              no_variants-Lawful (omega arith))
            (omega arith))
          (omega arith))
        (omega arith))
      2 (omega arith)

pub public_parms_and_id-Lawful : Lawful public_parms_and_id public_parms_and_id_format
unfolding public_parms_and_id public_parms_and_id_format
public_parms_and_id-Lawful = derive_enum-Lawful public_parms_and_id_variant-Lawful
