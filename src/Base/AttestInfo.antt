-- ===== src/Base/AttestInfo.antt =====
-- base/src/lib.rs: what attestations are about: clocks and certified objects.
use tpm_rs.Base.Buffers.{
  tpm2b_digest, tpm2b_digest_format, tpm2b_digest-Lawful, tpm2b_name, tpm2b_name_format,
  tpm2b_name-Lawful,
}
use tpm_rs.Base.Newtype.{newtype, newtype_format, newtype-Lawful}
use tpm_rs.Derive.Fields.{field, ◌then◌, derive}
use tpm_rs.Derive.Laws.{
  pair_format, via_format, field-LawfulFragment, then-LawfulFragment, derive-Lawful,
}
use tpm_rs.Marshal.Core.{Marshalable, prim}
use tpm_rs.Marshal.Lawful.{Format, Lawful, prim_format, prim-Lawful}
use tpm_rs.Prelude.{ℕ, refl}
use tpm_rs.Tpm2b.Simple.{Tpm2b}

-- `TpmsClockInfo`
pub record TpmsClockInfo : Type 0 where
  pub clock : ℕ
  pub reset_count : ℕ
  pub restart_count : ℕ
  pub safe : ℕ

abbrev pub tpms_clock_info_fields : TpmsClockInfo → (ℕ × (ℕ × (ℕ × ℕ)))
tpms_clock_info_fields s = (s.clock, (s.reset_count, (s.restart_count, s.safe)))

abbrev pub tpms_clock_info_of : (ℕ × (ℕ × (ℕ × ℕ))) → TpmsClockInfo
tpms_clock_info_of r = record {
  clock = r.0;
  reset_count = r.1.0;
  restart_count = r.1.1.0;
  safe = r.1.1.1;
}

unfoldable pub tpms_clock_info : Marshalable TpmsClockInfo
tpms_clock_info =
    derive tpms_clock_info_fields tpms_clock_info_of
      (field (prim 8) then field (prim 4) then field (prim 4) then field (newtype 1))

unfoldable pub tpms_clock_info_format : Format TpmsClockInfo
tpms_clock_info_format = via_format tpms_clock_info_fields (
    pair_format (prim_format 8)
      (pair_format (prim_format 4) (pair_format (prim_format 4) (newtype_format 1))))

pub tpms_clock_info-Lawful : Lawful tpms_clock_info tpms_clock_info_format
unfolding tpms_clock_info tpms_clock_info_format
tpms_clock_info-Lawful =
    derive-Lawful tpms_clock_info_fields tpms_clock_info_of (λ s. refl) (λ r. refl)
      (then-LawfulFragment (field-LawfulFragment (prim-Lawful 8)) (
        then-LawfulFragment (field-LawfulFragment (prim-Lawful 4)) (
          then-LawfulFragment (field-LawfulFragment (prim-Lawful 4))
            (field-LawfulFragment (newtype-Lawful 1)))))

-- `TpmsTimeInfo`
pub record TpmsTimeInfo : Type 0 where
  pub time : ℕ
  pub clock_info : TpmsClockInfo

abbrev pub tpms_time_info_fields : TpmsTimeInfo → (ℕ × TpmsClockInfo)
tpms_time_info_fields s = (s.time, s.clock_info)

abbrev pub tpms_time_info_of : (ℕ × TpmsClockInfo) → TpmsTimeInfo
tpms_time_info_of r = record { time = r.0; clock_info = r.1 }

unfoldable pub tpms_time_info : Marshalable TpmsTimeInfo
tpms_time_info =
    derive tpms_time_info_fields tpms_time_info_of (field (prim 8) then field tpms_clock_info)

unfoldable pub tpms_time_info_format : Format TpmsTimeInfo
tpms_time_info_format =
    via_format tpms_time_info_fields (pair_format (prim_format 8) tpms_clock_info_format)

pub tpms_time_info-Lawful : Lawful tpms_time_info tpms_time_info_format
unfolding tpms_time_info tpms_time_info_format
tpms_time_info-Lawful =
    derive-Lawful tpms_time_info_fields tpms_time_info_of (λ s. refl) (λ r. refl)
      (then-LawfulFragment (field-LawfulFragment (prim-Lawful 8))
        (field-LawfulFragment tpms_clock_info-Lawful))

-- `TpmsTimeAttestInfo`
pub record TpmsTimeAttestInfo : Type 0 where
  pub time : TpmsTimeInfo
  pub firmware_version : ℕ

abbrev pub tpms_time_attest_info_fields : TpmsTimeAttestInfo → (TpmsTimeInfo × ℕ)
tpms_time_attest_info_fields s = (s.time, s.firmware_version)

abbrev pub tpms_time_attest_info_of : (TpmsTimeInfo × ℕ) → TpmsTimeAttestInfo
tpms_time_attest_info_of r = record { time = r.0; firmware_version = r.1 }

unfoldable pub tpms_time_attest_info : Marshalable TpmsTimeAttestInfo
tpms_time_attest_info =
    derive tpms_time_attest_info_fields tpms_time_attest_info_of
      (field tpms_time_info then field (prim 8))

unfoldable pub tpms_time_attest_info_format : Format TpmsTimeAttestInfo
tpms_time_attest_info_format =
    via_format tpms_time_attest_info_fields (pair_format tpms_time_info_format (prim_format 8))

pub tpms_time_attest_info-Lawful : Lawful tpms_time_attest_info tpms_time_attest_info_format
unfolding tpms_time_attest_info tpms_time_attest_info_format
tpms_time_attest_info-Lawful =
    derive-Lawful tpms_time_attest_info_fields tpms_time_attest_info_of (λ s. refl) (λ r. refl)
      (then-LawfulFragment (field-LawfulFragment tpms_time_info-Lawful)
        (field-LawfulFragment (prim-Lawful 8)))

-- `TpmsCertifyInfo`
pub record TpmsCertifyInfo : Type 0 where
  pub name : Tpm2b
  pub qualified_name : Tpm2b

abbrev pub tpms_certify_info_fields : TpmsCertifyInfo → (Tpm2b × Tpm2b)
tpms_certify_info_fields s = (s.name, s.qualified_name)

abbrev pub tpms_certify_info_of : (Tpm2b × Tpm2b) → TpmsCertifyInfo
tpms_certify_info_of r = record { name = r.0; qualified_name = r.1 }

unfoldable pub tpms_certify_info : Marshalable TpmsCertifyInfo
tpms_certify_info =
    derive tpms_certify_info_fields tpms_certify_info_of (field tpm2b_name then field tpm2b_name)

unfoldable pub tpms_certify_info_format : Format TpmsCertifyInfo
tpms_certify_info_format =
    via_format tpms_certify_info_fields (pair_format tpm2b_name_format tpm2b_name_format)

pub tpms_certify_info-Lawful : Lawful tpms_certify_info tpms_certify_info_format
unfolding tpms_certify_info tpms_certify_info_format
tpms_certify_info-Lawful =
    derive-Lawful tpms_certify_info_fields tpms_certify_info_of (λ s. refl) (λ r. refl)
      (then-LawfulFragment (field-LawfulFragment tpm2b_name-Lawful)
        (field-LawfulFragment tpm2b_name-Lawful))

-- `TpmsCreationInfo`
pub record TpmsCreationInfo : Type 0 where
  pub object_name : Tpm2b
  pub creation_hash : Tpm2b

abbrev pub tpms_creation_info_fields : TpmsCreationInfo → (Tpm2b × Tpm2b)
tpms_creation_info_fields s = (s.object_name, s.creation_hash)

abbrev pub tpms_creation_info_of : (Tpm2b × Tpm2b) → TpmsCreationInfo
tpms_creation_info_of r = record { object_name = r.0; creation_hash = r.1 }

unfoldable pub tpms_creation_info : Marshalable TpmsCreationInfo
tpms_creation_info =
    derive tpms_creation_info_fields tpms_creation_info_of
      (field tpm2b_name then field tpm2b_digest)

unfoldable pub tpms_creation_info_format : Format TpmsCreationInfo
tpms_creation_info_format =
    via_format tpms_creation_info_fields (pair_format tpm2b_name_format tpm2b_digest_format)

pub tpms_creation_info-Lawful : Lawful tpms_creation_info tpms_creation_info_format
unfolding tpms_creation_info tpms_creation_info_format
tpms_creation_info-Lawful =
    derive-Lawful tpms_creation_info_fields tpms_creation_info_of (λ s. refl) (λ r. refl)
      (then-LawfulFragment (field-LawfulFragment tpm2b_name-Lawful)
        (field-LawfulFragment tpm2b_digest-Lawful))
