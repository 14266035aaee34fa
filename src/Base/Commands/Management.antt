-- ===== src/Base/Commands/Management.antt =====
-- base/src/: commands/capability.rs, commands/random.rs, commands/startup.rs, commands/pcr.rs.
use tpm_rs.Base.Buffers.{tpm2b_digest, tpm2b_digest_format, tpm2b_digest-Lawful}
use tpm_rs.Base.Capability.{
  TpmsCapabilityData, tpms_capability_data, tpms_capability_data_format,
  tpms_capability_data-Lawful,
}
use tpm_rs.Base.Newtype.{newtype, newtype_format, newtype-Lawful}
use tpm_rs.Base.Pcr.{
  TpmlPcrSelection, tpml_pcr_selection, tpml_pcr_selection_format, tpml_pcr_selection-Lawful,
  TpmlDigest, tpml_digest, tpml_digest_format, tpml_digest-Lawful,
}
use tpm_rs.Derive.Fields.{field, ◌then◌, derive}
use tpm_rs.Derive.Laws.{
  pair_format, via_format, field-LawfulFragment, then-LawfulFragment, derive-Lawful,
}
use tpm_rs.Marshal.Core.{Marshalable, prim}
use tpm_rs.Marshal.Lawful.{Format, Lawful, prim_format, prim-Lawful}
use tpm_rs.Prelude.{ℕ, refl}
use tpm_rs.Tpm2b.Simple.{Tpm2b}

-- `GetCapabilityCmd`
pub record GetCapabilityCmd : Type 0 where
  pub capability : ℕ
  pub property : ℕ
  pub property_count : ℕ

abbrev pub get_capability_cmd_fields : GetCapabilityCmd → (ℕ × (ℕ × ℕ))
get_capability_cmd_fields s = (s.capability, (s.property, s.property_count))

abbrev pub get_capability_cmd_of : (ℕ × (ℕ × ℕ)) → GetCapabilityCmd
get_capability_cmd_of r = record { capability = r.0; property = r.1.0; property_count = r.1.1 }

unfoldable pub get_capability_cmd : Marshalable GetCapabilityCmd
get_capability_cmd =
    derive get_capability_cmd_fields get_capability_cmd_of
      (field (newtype 4) then field (newtype 4) then field (prim 4))

unfoldable pub get_capability_cmd_format : Format GetCapabilityCmd
get_capability_cmd_format =
    via_format get_capability_cmd_fields
      (pair_format (newtype_format 4) (pair_format (newtype_format 4) (prim_format 4)))

pub get_capability_cmd-Lawful : Lawful get_capability_cmd get_capability_cmd_format
unfolding get_capability_cmd get_capability_cmd_format
get_capability_cmd-Lawful =
    derive-Lawful get_capability_cmd_fields get_capability_cmd_of (λ s. refl) (λ r. refl)
      (then-LawfulFragment (field-LawfulFragment (newtype-Lawful 4)) (
        then-LawfulFragment (field-LawfulFragment (newtype-Lawful 4))
          (field-LawfulFragment (prim-Lawful 4))))

-- `GetCapabilityResp`
pub record GetCapabilityResp : Type 0 where
  pub more_data : ℕ
  pub capability_data : TpmsCapabilityData

abbrev pub get_capability_resp_fields : GetCapabilityResp → (ℕ × TpmsCapabilityData)
get_capability_resp_fields s = (s.more_data, s.capability_data)

abbrev pub get_capability_resp_of : (ℕ × TpmsCapabilityData) → GetCapabilityResp
get_capability_resp_of r = record { more_data = r.0; capability_data = r.1 }

unfoldable pub get_capability_resp : Marshalable GetCapabilityResp
get_capability_resp =
    derive get_capability_resp_fields get_capability_resp_of
      (field (newtype 1) then field tpms_capability_data)

unfoldable pub get_capability_resp_format : Format GetCapabilityResp
get_capability_resp_format =
    via_format get_capability_resp_fields
      (pair_format (newtype_format 1) tpms_capability_data_format)

pub get_capability_resp-Lawful : Lawful get_capability_resp get_capability_resp_format
unfolding get_capability_resp get_capability_resp_format
get_capability_resp-Lawful =
    derive-Lawful get_capability_resp_fields get_capability_resp_of (λ s. refl) (λ r. refl)
      (then-LawfulFragment (field-LawfulFragment (newtype-Lawful 1))
        (field-LawfulFragment tpms_capability_data-Lawful))

-- `GetRandomCmd`
pub record GetRandomCmd : Type 0 where
  pub bytes_requested : ℕ

abbrev pub get_random_cmd_fields : GetRandomCmd → ℕ
get_random_cmd_fields s = s.bytes_requested

abbrev pub get_random_cmd_of : ℕ → GetRandomCmd
get_random_cmd_of r = record { bytes_requested = r }

unfoldable pub get_random_cmd : Marshalable GetRandomCmd
get_random_cmd = derive get_random_cmd_fields get_random_cmd_of (field (prim 2))

unfoldable pub get_random_cmd_format : Format GetRandomCmd
get_random_cmd_format = via_format get_random_cmd_fields (prim_format 2)

pub get_random_cmd-Lawful : Lawful get_random_cmd get_random_cmd_format
unfolding get_random_cmd get_random_cmd_format
get_random_cmd-Lawful =
    derive-Lawful get_random_cmd_fields get_random_cmd_of (λ s. refl) (λ r. refl)
      (field-LawfulFragment (prim-Lawful 2))

-- `GetRandomResp`
pub record GetRandomResp : Type 0 where
  pub random_bytes : Tpm2b

abbrev pub get_random_resp_fields : GetRandomResp → Tpm2b
get_random_resp_fields s = s.random_bytes

abbrev pub get_random_resp_of : Tpm2b → GetRandomResp
get_random_resp_of r = record { random_bytes = r }

unfoldable pub get_random_resp : Marshalable GetRandomResp
get_random_resp = derive get_random_resp_fields get_random_resp_of (field tpm2b_digest)

unfoldable pub get_random_resp_format : Format GetRandomResp
get_random_resp_format = via_format get_random_resp_fields tpm2b_digest_format

pub get_random_resp-Lawful : Lawful get_random_resp get_random_resp_format
unfolding get_random_resp get_random_resp_format
get_random_resp-Lawful =
    derive-Lawful get_random_resp_fields get_random_resp_of (λ s. refl) (λ r. refl)
      (field-LawfulFragment tpm2b_digest-Lawful)

-- `StartupCmd`
pub record StartupCmd : Type 0 where
  pub startup_type : ℕ

abbrev pub startup_cmd_fields : StartupCmd → ℕ
startup_cmd_fields s = s.startup_type

abbrev pub startup_cmd_of : ℕ → StartupCmd
startup_cmd_of r = record { startup_type = r }

unfoldable pub startup_cmd : Marshalable StartupCmd
startup_cmd = derive startup_cmd_fields startup_cmd_of (field (newtype 2))

unfoldable pub startup_cmd_format : Format StartupCmd
startup_cmd_format = via_format startup_cmd_fields (newtype_format 2)

pub startup_cmd-Lawful : Lawful startup_cmd startup_cmd_format
unfolding startup_cmd startup_cmd_format
startup_cmd-Lawful =
    derive-Lawful startup_cmd_fields startup_cmd_of (λ s. refl) (λ r. refl)
      (field-LawfulFragment (newtype-Lawful 2))

-- `PcrReadCmd`
pub record PcrReadCmd : Type 0 where
  pub pcr_selection_in : TpmlPcrSelection

abbrev pub pcr_read_cmd_fields : PcrReadCmd → TpmlPcrSelection
pcr_read_cmd_fields s = s.pcr_selection_in

abbrev pub pcr_read_cmd_of : TpmlPcrSelection → PcrReadCmd
pcr_read_cmd_of r = record { pcr_selection_in = r }

unfoldable pub pcr_read_cmd : Marshalable PcrReadCmd
pcr_read_cmd = derive pcr_read_cmd_fields pcr_read_cmd_of (field tpml_pcr_selection)

unfoldable pub pcr_read_cmd_format : Format PcrReadCmd
pcr_read_cmd_format = via_format pcr_read_cmd_fields tpml_pcr_selection_format

pub pcr_read_cmd-Lawful : Lawful pcr_read_cmd pcr_read_cmd_format
unfolding pcr_read_cmd pcr_read_cmd_format
pcr_read_cmd-Lawful =
    derive-Lawful pcr_read_cmd_fields pcr_read_cmd_of (λ s. refl) (λ r. refl)
      (field-LawfulFragment tpml_pcr_selection-Lawful)

-- `PcrReadResp`
pub record PcrReadResp : Type 0 where
  pub pcr_update_counter : ℕ
  pub pcr_selection_out : TpmlPcrSelection
  pub pcr_values : TpmlDigest

abbrev pub pcr_read_resp_fields : PcrReadResp → (ℕ × (TpmlPcrSelection × TpmlDigest))
pcr_read_resp_fields s = (s.pcr_update_counter, (s.pcr_selection_out, s.pcr_values))

abbrev pub pcr_read_resp_of : (ℕ × (TpmlPcrSelection × TpmlDigest)) → PcrReadResp
pcr_read_resp_of r = record {
  pcr_update_counter = r.0;
  pcr_selection_out = r.1.0;
  pcr_values = r.1.1;
}

unfoldable pub pcr_read_resp : Marshalable PcrReadResp
pcr_read_resp =
    derive pcr_read_resp_fields pcr_read_resp_of
      (field (prim 4) then field tpml_pcr_selection then field tpml_digest)

unfoldable pub pcr_read_resp_format : Format PcrReadResp
pcr_read_resp_format =
    via_format pcr_read_resp_fields
      (pair_format (prim_format 4) (pair_format tpml_pcr_selection_format tpml_digest_format))

pub pcr_read_resp-Lawful : Lawful pcr_read_resp pcr_read_resp_format
unfolding pcr_read_resp pcr_read_resp_format
pcr_read_resp-Lawful =
    derive-Lawful pcr_read_resp_fields pcr_read_resp_of (λ s. refl) (λ r. refl)
      (then-LawfulFragment (field-LawfulFragment (prim-Lawful 4)) (
        then-LawfulFragment (field-LawfulFragment tpml_pcr_selection-Lawful)
          (field-LawfulFragment tpml_digest-Lawful)))
