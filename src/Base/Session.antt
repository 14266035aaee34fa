-- ===== src/Base/Session.antt =====
-- base/src/lib.rs: what sessions put into commands and responses.
use tpm_rs.Base.Buffers.{
  tpm2b_digest, tpm2b_digest_format, tpm2b_digest-Lawful, tpm2b_data, tpm2b_data_format,
  tpm2b_data-Lawful,
}
use tpm_rs.Base.Newtype.{newtype, newtype_format, newtype-Lawful}
use tpm_rs.Derive.Fields.{field, ◌then◌, derive}
use tpm_rs.Derive.Laws.{
  pair_format, via_format, field-LawfulFragment, then-LawfulFragment, derive-Lawful,
}
use tpm_rs.Marshal.Core.{Marshalable}
use tpm_rs.Marshal.Lawful.{Format, Lawful}
use tpm_rs.Prelude.{ℕ, refl}
use tpm_rs.Tpm2b.Simple.{Tpm2b}

-- `TpmsAuthCommand`
pub record TpmsAuthCommand : Type 0 where
  pub session_handle : ℕ
  pub nonce : Tpm2b
  pub session_attributes : ℕ
  pub hmac : Tpm2b

abbrev pub tpms_auth_command_fields : TpmsAuthCommand → (ℕ × (Tpm2b × (ℕ × Tpm2b)))
tpms_auth_command_fields s = (s.session_handle, (s.nonce, (s.session_attributes, s.hmac)))

abbrev pub tpms_auth_command_of : (ℕ × (Tpm2b × (ℕ × Tpm2b))) → TpmsAuthCommand
tpms_auth_command_of r = record {
  session_handle = r.0;
  nonce = r.1.0;
  session_attributes = r.1.1.0;
  hmac = r.1.1.1;
}

unfoldable pub tpms_auth_command : Marshalable TpmsAuthCommand
tpms_auth_command =
    derive tpms_auth_command_fields tpms_auth_command_of
      (field (newtype 4) then field tpm2b_digest then field (newtype 1) then field tpm2b_digest)

unfoldable pub tpms_auth_command_format : Format TpmsAuthCommand
tpms_auth_command_format = via_format tpms_auth_command_fields (
    pair_format (newtype_format 4)
      (pair_format tpm2b_digest_format (pair_format (newtype_format 1) tpm2b_digest_format)))

pub tpms_auth_command-Lawful : Lawful tpms_auth_command tpms_auth_command_format
unfolding tpms_auth_command tpms_auth_command_format
tpms_auth_command-Lawful =
    derive-Lawful tpms_auth_command_fields tpms_auth_command_of (λ s. refl) (λ r. refl)
      (then-LawfulFragment (field-LawfulFragment (newtype-Lawful 4)) (
        then-LawfulFragment (field-LawfulFragment tpm2b_digest-Lawful) (
          then-LawfulFragment (field-LawfulFragment (newtype-Lawful 1))
            (field-LawfulFragment tpm2b_digest-Lawful))))

-- `TpmsAuthResponse`
pub record TpmsAuthResponse : Type 0 where
  pub nonce : Tpm2b
  pub session_attributes : ℕ
  pub hmac : Tpm2b

abbrev pub tpms_auth_response_fields : TpmsAuthResponse → (Tpm2b × (ℕ × Tpm2b))
tpms_auth_response_fields s = (s.nonce, (s.session_attributes, s.hmac))

abbrev pub tpms_auth_response_of : (Tpm2b × (ℕ × Tpm2b)) → TpmsAuthResponse
tpms_auth_response_of r = record { nonce = r.0; session_attributes = r.1.0; hmac = r.1.1 }

unfoldable pub tpms_auth_response : Marshalable TpmsAuthResponse
tpms_auth_response =
    derive tpms_auth_response_fields tpms_auth_response_of
      (field tpm2b_digest then field (newtype 1) then field tpm2b_data)

unfoldable pub tpms_auth_response_format : Format TpmsAuthResponse
tpms_auth_response_format =
    via_format tpms_auth_response_fields
      (pair_format tpm2b_digest_format (pair_format (newtype_format 1) tpm2b_data_format))

pub tpms_auth_response-Lawful : Lawful tpms_auth_response tpms_auth_response_format
unfolding tpms_auth_response tpms_auth_response_format
tpms_auth_response-Lawful =
    derive-Lawful tpms_auth_response_fields tpms_auth_response_of (λ s. refl) (λ r. refl)
      (then-LawfulFragment (field-LawfulFragment tpm2b_digest-Lawful) (
        then-LawfulFragment (field-LawfulFragment (newtype-Lawful 1))
          (field-LawfulFragment tpm2b_data-Lawful)))
