-- ===== src/Base/Sensitive.antt =====
-- base/src/lib.rs: `TpmtSensitive`, whose selector comes first.
use tpm_rs.Derive.Fields.{field, ◌then◌, derive}
use tpm_rs.Derive.Laws.{
  pair_format, via_format, field-LawfulFragment, then-LawfulFragment, derive-Lawful,
}
use tpm_rs.Derive.Tagged.{tagged}
use tpm_rs.Derive.TaggedLaws.{tagged_format, tagged-LawfulFragment}
use tpm_rs.Marshal.Core.{Marshalable}
use tpm_rs.Marshal.Lawful.{Format, Lawful}
use tpm_rs.Prelude.{refl}
use tpm_rs.Tpm2b.Simple.{Tpm2b}
use tpm_rs.Base.Buffers.{tpm2b_digest, tpm2b_digest_format, tpm2b_digest-Lawful}
use tpm_rs.Base.SensitiveParts.{
  TpmuSensitiveComposite, tpmu_sensitive_composite_variant, tpmu_sensitive_composite_variant_format,
  tpmu_sensitive_composite_variant-Lawful,
}

-- `TpmtSensitive`
pub record TpmtSensitive : Type 0 where
  pub auth_value : Tpm2b
  pub seed_value : Tpm2b
  pub sensitive : TpmuSensitiveComposite

abbrev pub tpmt_sensitive_fields : TpmtSensitive → ((Tpm2b × Tpm2b) × TpmuSensitiveComposite)
tpmt_sensitive_fields s = ((s.auth_value, s.seed_value), s.sensitive)

abbrev pub tpmt_sensitive_of : ((Tpm2b × Tpm2b) × TpmuSensitiveComposite) → TpmtSensitive
tpmt_sensitive_of r = record { auth_value = r.0.0; seed_value = r.0.1; sensitive = r.1 }

unfoldable pub tpmt_sensitive : Marshalable TpmtSensitive
tpmt_sensitive =
    derive tpmt_sensitive_fields tpmt_sensitive_of
      (tagged 2 tpmu_sensitive_composite_variant (field tpm2b_digest then field tpm2b_digest))

unfoldable pub tpmt_sensitive_format : Format TpmtSensitive
tpmt_sensitive_format = via_format tpmt_sensitive_fields (
    tagged_format 2 tpmu_sensitive_composite_variant
      (pair_format tpm2b_digest_format tpm2b_digest_format) tpmu_sensitive_composite_variant_format)

pub tpmt_sensitive-Lawful : Lawful tpmt_sensitive tpmt_sensitive_format
unfolding tpmt_sensitive tpmt_sensitive_format
tpmt_sensitive-Lawful =
    derive-Lawful tpmt_sensitive_fields tpmt_sensitive_of (λ s. refl) (λ r. refl)
      (tagged-LawfulFragment
        (then-LawfulFragment (field-LawfulFragment tpm2b_digest-Lawful)
          (field-LawfulFragment tpm2b_digest-Lawful))
        tpmu_sensitive_composite_variant-Lawful)
