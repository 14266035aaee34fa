-- ===== src/Base/Attest.antt =====
-- base/src/lib.rs: `TpmsAttest`, whose selector stands behind the magic number.
use tpm_rs.Derive.Fields.{field, ◌then◌, derive}
use tpm_rs.Derive.Laws.{
  pair_format, via_format, field-LawfulFragment, then-LawfulFragment, derive-Lawful,
}
use tpm_rs.Derive.Tagged.{tagged}
use tpm_rs.Derive.TaggedLaws.{tagged_format, tagged-LawfulFragment}
use tpm_rs.Marshal.Core.{Marshalable, prim}
use tpm_rs.Marshal.Lawful.{Format, Lawful, prim_format, prim-Lawful}
use tpm_rs.Prelude.{ℕ, refl}
use tpm_rs.Tpm2b.Simple.{Tpm2b}
use tpm_rs.Base.Newtype.{newtype, newtype_format, newtype-Lawful}
use tpm_rs.Base.Buffers.{
  tpm2b_name, tpm2b_name_format, tpm2b_name-Lawful, tpm2b_data, tpm2b_data_format,
  tpm2b_data-Lawful,
}
use tpm_rs.Base.AttestInfo.{
  TpmsClockInfo, tpms_clock_info, tpms_clock_info_format, tpms_clock_info-Lawful,
}
use tpm_rs.Base.AttestUnion.{
  TpmuAttest, tpmu_attest_variant, tpmu_attest_variant_format, tpmu_attest_variant-Lawful,
}

-- `TpmsAttest`
pub record TpmsAttest : Type 0 where
  pub magic : ℕ
  pub qualified_signer : Tpm2b
  pub extra_data : Tpm2b
  pub clock_info : TpmsClockInfo
  pub firmware_version : ℕ
  pub attested : TpmuAttest

abbrev pub tpms_attest_fields :
    TpmsAttest → (ℕ × ((Tpm2b × (Tpm2b × (TpmsClockInfo × ℕ))) × TpmuAttest))
tpms_attest_fields s = (
  s.magic,
  ((s.qualified_signer, (s.extra_data, (s.clock_info, s.firmware_version))), s.attested),
)

abbrev pub tpms_attest_of :
    (ℕ × ((Tpm2b × (Tpm2b × (TpmsClockInfo × ℕ))) × TpmuAttest)) → TpmsAttest
tpms_attest_of r = record {
  magic = r.0;
  qualified_signer = r.1.0.0;
  extra_data = r.1.0.1.0;
  clock_info = r.1.0.1.1.0;
  firmware_version = r.1.0.1.1.1;
  attested = r.1.1;
}

unfoldable pub tpms_attest : Marshalable TpmsAttest
tpms_attest = derive tpms_attest_fields tpms_attest_of (
    field (newtype 4)
    then tagged 2 tpmu_attest_variant
        (field tpm2b_name then field tpm2b_data then field tpms_clock_info then field (prim 8)))

unfoldable pub tpms_attest_format : Format TpmsAttest
tpms_attest_format = via_format tpms_attest_fields (
    pair_format (newtype_format 4) (
      tagged_format 2 tpmu_attest_variant
        (pair_format tpm2b_name_format
          (pair_format tpm2b_data_format (pair_format tpms_clock_info_format (prim_format 8))))
        tpmu_attest_variant_format))

pub tpms_attest-Lawful : Lawful tpms_attest tpms_attest_format
unfolding tpms_attest tpms_attest_format
tpms_attest-Lawful =
    derive-Lawful tpms_attest_fields tpms_attest_of (λ s. refl) (λ r. refl)
      (then-LawfulFragment (field-LawfulFragment (newtype-Lawful 4)) (
        tagged-LawfulFragment
          (then-LawfulFragment (field-LawfulFragment tpm2b_name-Lawful) (
            then-LawfulFragment (field-LawfulFragment tpm2b_data-Lawful) (
              then-LawfulFragment (field-LawfulFragment tpms_clock_info-Lawful)
                (field-LawfulFragment (prim-Lawful 8)))))
          tpmu_attest_variant-Lawful))
