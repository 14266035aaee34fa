-- ===== src/Base/Public.antt =====
-- base/src/lib.rs: `TpmtPublic`, whose selector comes first.
use tpm_rs.Derive.Fields.{field, ◌then◌, derive}
use tpm_rs.Derive.Laws.{
  pair_format, via_format, field-LawfulFragment, then-LawfulFragment, derive-Lawful,
}
use tpm_rs.Derive.Tagged.{tagged}
use tpm_rs.Derive.TaggedLaws.{tagged_format, tagged-LawfulFragment}
use tpm_rs.Marshal.Core.{Marshalable}
use tpm_rs.Marshal.Lawful.{Format, Lawful}
use tpm_rs.Prelude.{ℕ, refl}
use tpm_rs.Tpm2b.Simple.{Tpm2b}
use tpm_rs.Base.Newtype.{newtype, newtype_format, newtype-Lawful}
use tpm_rs.Base.Buffers.{tpm2b_digest, tpm2b_digest_format, tpm2b_digest-Lawful}
use tpm_rs.Base.PublicParms.{
  PublicParmsAndId, public_parms_and_id_variant, public_parms_and_id_variant_format,
  public_parms_and_id_variant-Lawful,
}

-- `TpmtPublic`
pub record TpmtPublic : Type 0 where
  pub name_alg : ℕ
  pub object_attributes : ℕ
  pub auth_policy : Tpm2b
  pub parms_and_id : PublicParmsAndId

abbrev pub tpmt_public_fields : TpmtPublic → ((ℕ × (ℕ × Tpm2b)) × PublicParmsAndId)
tpmt_public_fields s = ((s.name_alg, (s.object_attributes, s.auth_policy)), s.parms_and_id)

abbrev pub tpmt_public_of : ((ℕ × (ℕ × Tpm2b)) × PublicParmsAndId) → TpmtPublic
tpmt_public_of r = record {
  name_alg = r.0.0;
  object_attributes = r.0.1.0;
  auth_policy = r.0.1.1;
  parms_and_id = r.1;
}

unfoldable pub tpmt_public : Marshalable TpmtPublic
tpmt_public = derive tpmt_public_fields tpmt_public_of (
    tagged 2 public_parms_and_id_variant
      (field (newtype 2) then field (newtype 4) then field tpm2b_digest))

unfoldable pub tpmt_public_format : Format TpmtPublic
tpmt_public_format = via_format tpmt_public_fields (
    tagged_format 2 public_parms_and_id_variant
      (pair_format (newtype_format 2) (pair_format (newtype_format 4) tpm2b_digest_format))
      public_parms_and_id_variant_format)

pub tpmt_public-Lawful : Lawful tpmt_public tpmt_public_format
unfolding tpmt_public tpmt_public_format
tpmt_public-Lawful =
    derive-Lawful tpmt_public_fields tpmt_public_of (λ s. refl) (λ r. refl)
      (tagged-LawfulFragment
        (then-LawfulFragment (field-LawfulFragment (newtype-Lawful 2)) (
          then-LawfulFragment (field-LawfulFragment (newtype-Lawful 4))
            (field-LawfulFragment tpm2b_digest-Lawful)))
        public_parms_and_id_variant-Lawful)
