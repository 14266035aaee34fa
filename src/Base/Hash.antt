-- ===== src/Base/Hash.antt =====
-- base/src/lib.rs: hashes with their algorithm, and policies tagged by a handle.
use tpm_rs.Base.Constants.Algorithms.{TpmAlgId, tpm_alg_id_number}
use tpm_rs.Base.Limits.{
  tpm2_sha_digest_size, tpm2_sha1_digest_size, tpm2_sha256_digest_size, tpm2_sha384_digest_size,
  tpm2_sha512_digest_size, tpm2_sm3_256_digest_size,
}
use tpm_rs.Base.Newtype.{newtype, newtype_format, newtype-Lawful}
use tpm_rs.Base.Sizes.{tpm2_max_tagged_policies}
use tpm_rs.Derive.EntryLaws.{counted_format, counted-LawfulFragment}
use tpm_rs.Derive.Enum.{MarshalableVariant, no_variants, variant, derive_variant, derive_enum}
use tpm_rs.Derive.EnumLaws.{no_format, sum_format, no_variants-Lawful, variant-Lawful}
use tpm_rs.Derive.VariantLaws.{
  LawfulVariant, enum_format, derive_variant-Lawful, derive_enum-Lawful,
}
use tpm_rs.Derive.Fields.{field, ◌then◌, counted, derive}
use tpm_rs.Derive.Laws.{
  pair_format, via_format, field-LawfulFragment, then-LawfulFragment, derive-Lawful,
}
use tpm_rs.Marshal.Core.{Marshalable, byte_array, unit}
use tpm_rs.Marshal.Lawful.{
  Format, Lawful, byte_array_format, byte_array-Lawful, unit_format, unit-Lawful,
}
use tpm_rs.Prelude.{ℕ, ◌≡◌, refl, arith, List, ◌⊎◌, inl, inr, replicate}

-- `TpmsEmpty`: a struct with no field marshals as `()` does.
abbrev pub tpms_empty : Marshalable (Unit {0})
tpms_empty = unit

abbrev pub tpms_empty_format : Format (Unit {0})
tpms_empty_format = unit_format

pub tpms_empty-Lawful : Lawful tpms_empty tpms_empty_format
tpms_empty-Lawful = unit-Lawful

-- `TpmtHa`
pub data TpmtHa : Type 0 where
  sha1 : List ℕ → TpmtHa
  sha256 : List ℕ → TpmtHa
  sha384 : List ℕ → TpmtHa
  sha512 : List ℕ → TpmtHa
  sm3_256 : List ℕ → TpmtHa

abbrev pub TpmtHaSum : Type 0
TpmtHaSum = (List ℕ) ⊎ ((List ℕ) ⊎ ((List ℕ) ⊎ ((List ℕ) ⊎ ((List ℕ) ⊎ ⊥))))

abbrev pub tpmt_ha_sum : TpmtHa → TpmtHaSum
tpmt_ha_sum (TpmtHa.sha1 x) = inl x
tpmt_ha_sum (TpmtHa.sha256 x) = inr (inl x)
tpmt_ha_sum (TpmtHa.sha384 x) = inr (inr (inl x))
tpmt_ha_sum (TpmtHa.sha512 x) = inr (inr (inr (inl x)))
tpmt_ha_sum (TpmtHa.sm3_256 x) = inr (inr (inr (inr (inl x))))

abbrev pub tpmt_ha_of : TpmtHaSum → TpmtHa
tpmt_ha_of (inl x) = TpmtHa.sha1 x
tpmt_ha_of (inr (inl x)) = TpmtHa.sha256 x
tpmt_ha_of (inr (inr (inl x))) = TpmtHa.sha384 x
tpmt_ha_of (inr (inr (inr (inl x)))) = TpmtHa.sha512 x
tpmt_ha_of (inr (inr (inr (inr (inl x))))) = TpmtHa.sm3_256 x
tpmt_ha_of (inr (inr (inr (inr (inr e))))) = absurd e

tpmt_ha_of-sum : (s : TpmtHa) → tpmt_ha_of (tpmt_ha_sum s) ≡ s
tpmt_ha_of-sum (TpmtHa.sha1 x) = refl
tpmt_ha_of-sum (TpmtHa.sha256 x) = refl
tpmt_ha_of-sum (TpmtHa.sha384 x) = refl
tpmt_ha_of-sum (TpmtHa.sha512 x) = refl
tpmt_ha_of-sum (TpmtHa.sm3_256 x) = refl

tpmt_ha_sum-of : (e : TpmtHaSum) → tpmt_ha_sum (tpmt_ha_of e) ≡ e
tpmt_ha_sum-of (inl x) = refl
tpmt_ha_sum-of (inr (inl x)) = refl
tpmt_ha_sum-of (inr (inr (inl x))) = refl
tpmt_ha_sum-of (inr (inr (inr (inl x)))) = refl
tpmt_ha_sum-of (inr (inr (inr (inr (inl x))))) = refl
tpmt_ha_sum-of (inr (inr (inr (inr (inr e))))) = absurd e

unfoldable pub tpmt_ha_variant : MarshalableVariant TpmtHa
tpmt_ha_variant = derive_variant tpmt_ha_sum tpmt_ha_of (
    variant (tpm_alg_id_number TpmAlgId.sha1) (field (byte_array tpm2_sha_digest_size)) (
      variant (tpm_alg_id_number TpmAlgId.sha256) (field (byte_array tpm2_sha256_digest_size)) (
        variant (tpm_alg_id_number TpmAlgId.sha384) (field (byte_array tpm2_sha384_digest_size)) (
          variant (tpm_alg_id_number TpmAlgId.sha512) (field (byte_array tpm2_sha512_digest_size)) (
            variant (tpm_alg_id_number TpmAlgId.sm3256)
              (field (byte_array tpm2_sm3_256_digest_size)) no_variants)))))

unfoldable pub tpmt_ha : Marshalable TpmtHa
tpmt_ha = derive_enum 2 tpmt_ha_variant

unfoldable pub tpmt_ha_variant_format : Format TpmtHa
tpmt_ha_variant_format = via_format tpmt_ha_sum (
    sum_format (byte_array_format tpm2_sha_digest_size) (
      sum_format (byte_array_format tpm2_sha256_digest_size) (
        sum_format (byte_array_format tpm2_sha384_digest_size) (
          sum_format (byte_array_format tpm2_sha512_digest_size)
            (sum_format (byte_array_format tpm2_sm3_256_digest_size) no_format)))))

unfoldable pub tpmt_ha_format : Format TpmtHa
tpmt_ha_format = enum_format 2 tpmt_ha_variant tpmt_ha_variant_format

pub tpmt_ha_variant-Lawful : LawfulVariant 2 tpmt_ha_variant tpmt_ha_variant_format
unfolding tpmt_ha_variant tpmt_ha_variant_format
tpmt_ha_variant-Lawful =
    derive_variant-Lawful tpmt_ha_sum tpmt_ha_of tpmt_ha_of-sum tpmt_ha_sum-of
      (variant-Lawful _ _ (field-LawfulFragment (byte_array-Lawful tpm2_sha_digest_size))
        (variant-Lawful _ _ (field-LawfulFragment (byte_array-Lawful tpm2_sha256_digest_size))
          (variant-Lawful _ _ (field-LawfulFragment (byte_array-Lawful tpm2_sha384_digest_size))
            (variant-Lawful _ _ (field-LawfulFragment (byte_array-Lawful tpm2_sha512_digest_size))
              (variant-Lawful _ _
                (field-LawfulFragment (byte_array-Lawful tpm2_sm3_256_digest_size))
                no_variants-Lawful (omega arith))
              (omega arith))
            (omega arith))
          (omega arith))
        (omega arith))
      2 (omega arith)

pub tpmt_ha-Lawful : Lawful tpmt_ha tpmt_ha_format
unfolding tpmt_ha tpmt_ha_format
tpmt_ha-Lawful = derive_enum-Lawful tpmt_ha_variant-Lawful

-- `impl Default for TpmtHa`
abbrev pub tpmt_ha_default : TpmtHa
tpmt_ha_default = TpmtHa.sha1 (replicate tpm2_sha1_digest_size 0)

-- `TpmsTaggedPolicy`
pub record TpmsTaggedPolicy : Type 0 where
  pub handle : ℕ
  pub policy_hash : TpmtHa

abbrev pub tpms_tagged_policy_fields : TpmsTaggedPolicy → (ℕ × TpmtHa)
tpms_tagged_policy_fields s = (s.handle, s.policy_hash)

abbrev pub tpms_tagged_policy_of : (ℕ × TpmtHa) → TpmsTaggedPolicy
tpms_tagged_policy_of r = record { handle = r.0; policy_hash = r.1 }

unfoldable pub tpms_tagged_policy : Marshalable TpmsTaggedPolicy
tpms_tagged_policy =
    derive tpms_tagged_policy_fields tpms_tagged_policy_of (field (newtype 4) then field tpmt_ha)

unfoldable pub tpms_tagged_policy_format : Format TpmsTaggedPolicy
tpms_tagged_policy_format =
    via_format tpms_tagged_policy_fields (pair_format (newtype_format 4) tpmt_ha_format)

pub tpms_tagged_policy-Lawful : Lawful tpms_tagged_policy tpms_tagged_policy_format
unfolding tpms_tagged_policy tpms_tagged_policy_format
tpms_tagged_policy-Lawful =
    derive-Lawful tpms_tagged_policy_fields tpms_tagged_policy_of (λ s. refl) (λ r. refl)
      (then-LawfulFragment (field-LawfulFragment (newtype-Lawful 4))
        (field-LawfulFragment tpmt_ha-Lawful))

-- `Default` of `TpmsTaggedPolicy`.
abbrev pub tpms_tagged_policy_default : TpmsTaggedPolicy
tpms_tagged_policy_default = record { handle = 0; policy_hash = tpmt_ha_default }

-- `TpmlTaggedPolicy`
pub record TpmlTaggedPolicy : Type 0 where
  pub count : ℕ
  pub policies : List TpmsTaggedPolicy

abbrev pub tpml_tagged_policy_fields : TpmlTaggedPolicy → (ℕ × List TpmsTaggedPolicy)
tpml_tagged_policy_fields s = (s.count, s.policies)

abbrev pub tpml_tagged_policy_of : (ℕ × List TpmsTaggedPolicy) → TpmlTaggedPolicy
tpml_tagged_policy_of r = record { count = r.0; policies = r.1 }

unfoldable pub tpml_tagged_policy : Marshalable TpmlTaggedPolicy
tpml_tagged_policy =
    derive tpml_tagged_policy_fields tpml_tagged_policy_of
      (counted tpms_tagged_policy 4 tpm2_max_tagged_policies tpms_tagged_policy_default)

unfoldable pub tpml_tagged_policy_format : Format TpmlTaggedPolicy
tpml_tagged_policy_format =
    via_format tpml_tagged_policy_fields (
      counted_format 4 tpm2_max_tagged_policies tpms_tagged_policy_default
        tpms_tagged_policy_format)

pub tpml_tagged_policy-Lawful : Lawful tpml_tagged_policy tpml_tagged_policy_format
unfolding tpml_tagged_policy tpml_tagged_policy_format
tpml_tagged_policy-Lawful =
    derive-Lawful tpml_tagged_policy_fields tpml_tagged_policy_of (λ s. refl) (λ r. refl)
      (counted-LawfulFragment 4 tpm2_max_tagged_policies tpms_tagged_policy-Lawful
        tpms_tagged_policy_default)
