-- ===== src/Base/Schemes.antt =====
-- base/src/lib.rs: hash and symmetric schemes.
use tpm_rs.Base.Constants.Algorithms.{TpmAlgId, tpm_alg_id_number}
use tpm_rs.Base.Hash.{tpms_empty, tpms_empty_format, tpms_empty-Lawful}
use tpm_rs.Base.Newtype.{newtype, newtype_format, newtype-Lawful}
use tpm_rs.Derive.Enum.{MarshalableVariant, no_variants, variant, derive_variant, derive_enum}
use tpm_rs.Derive.EnumLaws.{no_format, sum_format, no_variants-Lawful, variant-Lawful}
use tpm_rs.Derive.VariantLaws.{
  LawfulVariant, enum_format, derive_variant-Lawful, derive_enum-Lawful,
}
use tpm_rs.Derive.Fields.{field, ◌then◌, derive}
use tpm_rs.Derive.Laws.{
  pair_format, via_format, field-LawfulFragment, then-LawfulFragment, derive-Lawful,
}
use tpm_rs.Marshal.Core.{Marshalable, prim}
use tpm_rs.Marshal.Lawful.{Format, Lawful, prim_format, prim-Lawful}
use tpm_rs.Prelude.{ℕ, ◌≡◌, refl, arith, ◌⊎◌, inl, inr}

-- `TpmsSchemeHash`
pub record TpmsSchemeHash : Type 0 where
  pub hash_alg : ℕ

abbrev pub tpms_scheme_hash_fields : TpmsSchemeHash → ℕ
tpms_scheme_hash_fields s = s.hash_alg

abbrev pub tpms_scheme_hash_of : ℕ → TpmsSchemeHash
tpms_scheme_hash_of r = record { hash_alg = r }

unfoldable pub tpms_scheme_hash : Marshalable TpmsSchemeHash
tpms_scheme_hash = derive tpms_scheme_hash_fields tpms_scheme_hash_of (field (newtype 2))

unfoldable pub tpms_scheme_hash_format : Format TpmsSchemeHash
tpms_scheme_hash_format = via_format tpms_scheme_hash_fields (newtype_format 2)

pub tpms_scheme_hash-Lawful : Lawful tpms_scheme_hash tpms_scheme_hash_format
unfolding tpms_scheme_hash tpms_scheme_hash_format
tpms_scheme_hash-Lawful =
    derive-Lawful tpms_scheme_hash_fields tpms_scheme_hash_of (λ s. refl) (λ r. refl)
      (field-LawfulFragment (newtype-Lawful 2))

-- `TpmsSchemeEcdaa`
pub record TpmsSchemeEcdaa : Type 0 where
  pub hash_alg : ℕ
  pub count : ℕ

abbrev pub tpms_scheme_ecdaa_fields : TpmsSchemeEcdaa → (ℕ × ℕ)
tpms_scheme_ecdaa_fields s = (s.hash_alg, s.count)

abbrev pub tpms_scheme_ecdaa_of : (ℕ × ℕ) → TpmsSchemeEcdaa
tpms_scheme_ecdaa_of r = record { hash_alg = r.0; count = r.1 }

unfoldable pub tpms_scheme_ecdaa : Marshalable TpmsSchemeEcdaa
tpms_scheme_ecdaa =
    derive tpms_scheme_ecdaa_fields tpms_scheme_ecdaa_of (field (newtype 2) then field (prim 2))

unfoldable pub tpms_scheme_ecdaa_format : Format TpmsSchemeEcdaa
tpms_scheme_ecdaa_format =
    via_format tpms_scheme_ecdaa_fields (pair_format (newtype_format 2) (prim_format 2))

pub tpms_scheme_ecdaa-Lawful : Lawful tpms_scheme_ecdaa tpms_scheme_ecdaa_format
unfolding tpms_scheme_ecdaa tpms_scheme_ecdaa_format
tpms_scheme_ecdaa-Lawful =
    derive-Lawful tpms_scheme_ecdaa_fields tpms_scheme_ecdaa_of (λ s. refl) (λ r. refl)
      (then-LawfulFragment (field-LawfulFragment (newtype-Lawful 2))
        (field-LawfulFragment (prim-Lawful 2)))

-- `TpmsSchemeXor`
pub record TpmsSchemeXor : Type 0 where
  pub hash_alg : ℕ
  pub kdf : ℕ

abbrev pub tpms_scheme_xor_fields : TpmsSchemeXor → (ℕ × ℕ)
tpms_scheme_xor_fields s = (s.hash_alg, s.kdf)

abbrev pub tpms_scheme_xor_of : (ℕ × ℕ) → TpmsSchemeXor
tpms_scheme_xor_of r = record { hash_alg = r.0; kdf = r.1 }

unfoldable pub tpms_scheme_xor : Marshalable TpmsSchemeXor
tpms_scheme_xor =
    derive tpms_scheme_xor_fields tpms_scheme_xor_of (field (newtype 2) then field (newtype 2))

unfoldable pub tpms_scheme_xor_format : Format TpmsSchemeXor
tpms_scheme_xor_format =
    via_format tpms_scheme_xor_fields (pair_format (newtype_format 2) (newtype_format 2))

pub tpms_scheme_xor-Lawful : Lawful tpms_scheme_xor tpms_scheme_xor_format
unfolding tpms_scheme_xor tpms_scheme_xor_format
tpms_scheme_xor-Lawful =
    derive-Lawful tpms_scheme_xor_fields tpms_scheme_xor_of (λ s. refl) (λ r. refl)
      (then-LawfulFragment (field-LawfulFragment (newtype-Lawful 2))
        (field-LawfulFragment (newtype-Lawful 2)))

-- `TpmtSymDefObject`
pub data TpmtSymDefObject : Type 0 where
  aes : ℕ → ℕ → TpmtSymDefObject
  sm4 : ℕ → ℕ → TpmtSymDefObject
  camellia : ℕ → ℕ → TpmtSymDefObject
  exclusive_or : ℕ → Unit {0} → TpmtSymDefObject
  null : Unit {0} → Unit {0} → TpmtSymDefObject

abbrev pub TpmtSymDefObjectSum : Type 0
TpmtSymDefObjectSum =
    (ℕ × ℕ) ⊎ ((ℕ × ℕ) ⊎ ((ℕ × ℕ) ⊎ ((ℕ × (Unit {0})) ⊎ (((Unit {0}) × (Unit {0})) ⊎ ⊥))))

abbrev pub tpmt_sym_def_object_sum : TpmtSymDefObject → TpmtSymDefObjectSum
tpmt_sym_def_object_sum (TpmtSymDefObject.aes x y) = inl (x, y)
tpmt_sym_def_object_sum (TpmtSymDefObject.sm4 x y) = inr (inl (x, y))
tpmt_sym_def_object_sum (TpmtSymDefObject.camellia x y) = inr (inr (inl (x, y)))
tpmt_sym_def_object_sum (TpmtSymDefObject.exclusive_or x y) = inr (inr (inr (inl (x, y))))
tpmt_sym_def_object_sum (TpmtSymDefObject.null x y) = inr (inr (inr (inr (inl (x, y)))))

abbrev pub tpmt_sym_def_object_of : TpmtSymDefObjectSum → TpmtSymDefObject
tpmt_sym_def_object_of (inl (x, y)) = TpmtSymDefObject.aes x y
tpmt_sym_def_object_of (inr (inl (x, y))) = TpmtSymDefObject.sm4 x y
tpmt_sym_def_object_of (inr (inr (inl (x, y)))) = TpmtSymDefObject.camellia x y
tpmt_sym_def_object_of (inr (inr (inr (inl (x, y))))) = TpmtSymDefObject.exclusive_or x y
tpmt_sym_def_object_of (inr (inr (inr (inr (inl (x, y)))))) = TpmtSymDefObject.null x y
tpmt_sym_def_object_of (inr (inr (inr (inr (inr e))))) = absurd e

tpmt_sym_def_object_of-sum :
    (s : TpmtSymDefObject) → tpmt_sym_def_object_of (tpmt_sym_def_object_sum s) ≡ s
tpmt_sym_def_object_of-sum (TpmtSymDefObject.aes x y) = refl
tpmt_sym_def_object_of-sum (TpmtSymDefObject.sm4 x y) = refl
tpmt_sym_def_object_of-sum (TpmtSymDefObject.camellia x y) = refl
tpmt_sym_def_object_of-sum (TpmtSymDefObject.exclusive_or x y) = refl
tpmt_sym_def_object_of-sum (TpmtSymDefObject.null x y) = refl

tpmt_sym_def_object_sum-of :
    (e : TpmtSymDefObjectSum) → tpmt_sym_def_object_sum (tpmt_sym_def_object_of e) ≡ e
tpmt_sym_def_object_sum-of (inl (x, y)) = refl
tpmt_sym_def_object_sum-of (inr (inl (x, y))) = refl
tpmt_sym_def_object_sum-of (inr (inr (inl (x, y)))) = refl
tpmt_sym_def_object_sum-of (inr (inr (inr (inl (x, y))))) = refl
tpmt_sym_def_object_sum-of (inr (inr (inr (inr (inl (x, y)))))) = refl
tpmt_sym_def_object_sum-of (inr (inr (inr (inr (inr e))))) = absurd e

unfoldable pub tpmt_sym_def_object_variant : MarshalableVariant TpmtSymDefObject
tpmt_sym_def_object_variant = derive_variant tpmt_sym_def_object_sum tpmt_sym_def_object_of (
    variant (tpm_alg_id_number TpmAlgId.aes) (field (newtype 2) then field (newtype 2)) (
      variant (tpm_alg_id_number TpmAlgId.sm4) (field (newtype 2) then field (newtype 2)) (
        variant (tpm_alg_id_number TpmAlgId.camellia) (field (newtype 2) then field (newtype 2)) (
          variant (tpm_alg_id_number TpmAlgId.xor) (field (newtype 2) then field tpms_empty) (
            variant (tpm_alg_id_number TpmAlgId.null) (field tpms_empty then field tpms_empty)
              no_variants)))))

unfoldable pub tpmt_sym_def_object : Marshalable TpmtSymDefObject
tpmt_sym_def_object = derive_enum 2 tpmt_sym_def_object_variant

unfoldable pub tpmt_sym_def_object_variant_format : Format TpmtSymDefObject
tpmt_sym_def_object_variant_format = via_format tpmt_sym_def_object_sum (
    sum_format (pair_format (newtype_format 2) (newtype_format 2)) (
      sum_format (pair_format (newtype_format 2) (newtype_format 2)) (
        sum_format (pair_format (newtype_format 2) (newtype_format 2)) (
          sum_format (pair_format (newtype_format 2) tpms_empty_format)
            (sum_format (pair_format tpms_empty_format tpms_empty_format) no_format)))))

unfoldable pub tpmt_sym_def_object_format : Format TpmtSymDefObject
tpmt_sym_def_object_format =
    enum_format 2 tpmt_sym_def_object_variant tpmt_sym_def_object_variant_format

pub tpmt_sym_def_object_variant-Lawful :
    LawfulVariant 2 tpmt_sym_def_object_variant tpmt_sym_def_object_variant_format
unfolding tpmt_sym_def_object_variant tpmt_sym_def_object_variant_format
tpmt_sym_def_object_variant-Lawful =
    derive_variant-Lawful tpmt_sym_def_object_sum tpmt_sym_def_object_of tpmt_sym_def_object_of-sum
      tpmt_sym_def_object_sum-of
      (variant-Lawful _ _
        (then-LawfulFragment (field-LawfulFragment (newtype-Lawful 2))
          (field-LawfulFragment (newtype-Lawful 2)))
        (variant-Lawful _ _
          (then-LawfulFragment (field-LawfulFragment (newtype-Lawful 2))
            (field-LawfulFragment (newtype-Lawful 2)))
          (variant-Lawful _ _
            (then-LawfulFragment (field-LawfulFragment (newtype-Lawful 2))
              (field-LawfulFragment (newtype-Lawful 2)))
            (variant-Lawful _ _
              (then-LawfulFragment (field-LawfulFragment (newtype-Lawful 2))
                (field-LawfulFragment tpms_empty-Lawful))
              (variant-Lawful _ _
                (then-LawfulFragment (field-LawfulFragment tpms_empty-Lawful)
                  (field-LawfulFragment tpms_empty-Lawful))
                no_variants-Lawful (omega arith))
              (omega arith))
            (omega arith))
          (omega arith))
        (omega arith))
      2 (omega arith)

pub tpmt_sym_def_object-Lawful : Lawful tpmt_sym_def_object tpmt_sym_def_object_format
unfolding tpmt_sym_def_object tpmt_sym_def_object_format
tpmt_sym_def_object-Lawful = derive_enum-Lawful tpmt_sym_def_object_variant-Lawful

-- `TpmsSymCipherParms`
pub record TpmsSymCipherParms : Type 0 where
  pub sym : TpmtSymDefObject

abbrev pub tpms_sym_cipher_parms_fields : TpmsSymCipherParms → TpmtSymDefObject
tpms_sym_cipher_parms_fields s = s.sym

abbrev pub tpms_sym_cipher_parms_of : TpmtSymDefObject → TpmsSymCipherParms
tpms_sym_cipher_parms_of r = record { sym = r }

unfoldable pub tpms_sym_cipher_parms : Marshalable TpmsSymCipherParms
tpms_sym_cipher_parms =
    derive tpms_sym_cipher_parms_fields tpms_sym_cipher_parms_of (field tpmt_sym_def_object)

unfoldable pub tpms_sym_cipher_parms_format : Format TpmsSymCipherParms
tpms_sym_cipher_parms_format = via_format tpms_sym_cipher_parms_fields tpmt_sym_def_object_format

pub tpms_sym_cipher_parms-Lawful : Lawful tpms_sym_cipher_parms tpms_sym_cipher_parms_format
unfolding tpms_sym_cipher_parms tpms_sym_cipher_parms_format
tpms_sym_cipher_parms-Lawful =
    derive-Lawful tpms_sym_cipher_parms_fields tpms_sym_cipher_parms_of (λ s. refl) (λ r. refl)
      (field-LawfulFragment tpmt_sym_def_object-Lawful)
