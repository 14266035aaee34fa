-- ===== src/Base/Commands/Objects.antt =====
-- base/src/: commands/session.rs and commands/hierarchy.rs.
use tpm_rs.Base.Buffers.{
  tpm2b_digest, tpm2b_digest_format, tpm2b_digest-Lawful, tpm2b_data, tpm2b_data_format,
  tpm2b_data-Lawful, tpm2b_name, tpm2b_name_format, tpm2b_name-Lawful, tpm2b_sensitive_create,
  tpm2b_sensitive_create_format, tpm2b_sensitive_create-Lawful,
}
use tpm_rs.Base.MoreBuffers.{
  tpm2b_encrypted_secret, tpm2b_encrypted_secret_format, tpm2b_encrypted_secret-Lawful,
  tpm2b_public, tpm2b_public_format, tpm2b_public-Lawful, tpm2b_creation_data,
  tpm2b_creation_data_format, tpm2b_creation_data-Lawful,
}
use tpm_rs.Base.Newtype.{newtype, newtype_format, newtype-Lawful}
use tpm_rs.Base.Objects.{
  TpmtTkCreation, tpmt_tk_creation, tpmt_tk_creation_format, tpmt_tk_creation-Lawful,
}
use tpm_rs.Base.Pcr.{
  TpmlPcrSelection, tpml_pcr_selection, tpml_pcr_selection_format, tpml_pcr_selection-Lawful,
}
use tpm_rs.Base.Schemes.{
  TpmtSymDefObject, tpmt_sym_def_object, tpmt_sym_def_object_format, tpmt_sym_def_object-Lawful,
}
use tpm_rs.Derive.Fields.{field, ◌then◌, derive}
use tpm_rs.Derive.Laws.{
  pair_format, via_format, field-LawfulFragment, then-LawfulFragment, derive-Lawful,
}
use tpm_rs.Marshal.Core.{Marshalable}
use tpm_rs.Marshal.Lawful.{Format, Lawful}
use tpm_rs.Prelude.{ℕ, refl}
use tpm_rs.Tpm2b.Simple.{Tpm2b}

-- `StartAuthSessionCmd`
pub record StartAuthSessionCmd : Type 0 where
  pub nonce_caller : Tpm2b
  pub encrypted_salt : Tpm2b
  pub session_type : ℕ
  pub symmetric : TpmtSymDefObject
  pub auth_hash : ℕ

abbrev pub start_auth_session_cmd_fields :
    StartAuthSessionCmd → (Tpm2b × (Tpm2b × (ℕ × (TpmtSymDefObject × ℕ))))
start_auth_session_cmd_fields s =
    (s.nonce_caller, (s.encrypted_salt, (s.session_type, (s.symmetric, s.auth_hash))))

abbrev pub start_auth_session_cmd_of :
    (Tpm2b × (Tpm2b × (ℕ × (TpmtSymDefObject × ℕ)))) → StartAuthSessionCmd
start_auth_session_cmd_of r = record {
  nonce_caller = r.0;
  encrypted_salt = r.1.0;
  session_type = r.1.1.0;
  symmetric = r.1.1.1.0;
  auth_hash = r.1.1.1.1;
}

unfoldable pub start_auth_session_cmd : Marshalable StartAuthSessionCmd
start_auth_session_cmd = derive start_auth_session_cmd_fields start_auth_session_cmd_of (
    field tpm2b_digest
    then field tpm2b_encrypted_secret
    then field (newtype 1)
    then field tpmt_sym_def_object
    then field (newtype 2))

unfoldable pub start_auth_session_cmd_format : Format StartAuthSessionCmd
start_auth_session_cmd_format = via_format start_auth_session_cmd_fields (
    pair_format tpm2b_digest_format (
      pair_format tpm2b_encrypted_secret_format (
        pair_format (newtype_format 1)
          (pair_format tpmt_sym_def_object_format (newtype_format 2)))))

pub start_auth_session_cmd-Lawful : Lawful start_auth_session_cmd start_auth_session_cmd_format
unfolding start_auth_session_cmd start_auth_session_cmd_format
start_auth_session_cmd-Lawful =
    derive-Lawful start_auth_session_cmd_fields start_auth_session_cmd_of (λ s. refl) (λ r. refl)
      (then-LawfulFragment (field-LawfulFragment tpm2b_digest-Lawful) (
        then-LawfulFragment (field-LawfulFragment tpm2b_encrypted_secret-Lawful) (
          then-LawfulFragment (field-LawfulFragment (newtype-Lawful 1)) (
            then-LawfulFragment (field-LawfulFragment tpmt_sym_def_object-Lawful)
              (field-LawfulFragment (newtype-Lawful 2))))))

-- `StartAuthSessionHandles`
pub record StartAuthSessionHandles : Type 0 where
  pub tpm_key : ℕ
  pub bind : ℕ

abbrev pub start_auth_session_handles_fields : StartAuthSessionHandles → (ℕ × ℕ)
start_auth_session_handles_fields s = (s.tpm_key, s.bind)

abbrev pub start_auth_session_handles_of : (ℕ × ℕ) → StartAuthSessionHandles
start_auth_session_handles_of r = record { tpm_key = r.0; bind = r.1 }

unfoldable pub start_auth_session_handles : Marshalable StartAuthSessionHandles
start_auth_session_handles =
    derive start_auth_session_handles_fields start_auth_session_handles_of
      (field (newtype 4) then field (newtype 4))

unfoldable pub start_auth_session_handles_format : Format StartAuthSessionHandles
start_auth_session_handles_format =
    via_format start_auth_session_handles_fields (pair_format (newtype_format 4) (newtype_format 4))

pub start_auth_session_handles-Lawful :
    Lawful start_auth_session_handles start_auth_session_handles_format
unfolding start_auth_session_handles start_auth_session_handles_format
start_auth_session_handles-Lawful =
    derive-Lawful start_auth_session_handles_fields start_auth_session_handles_of (λ s. refl)
      (λ r. refl)
      (then-LawfulFragment (field-LawfulFragment (newtype-Lawful 4))
        (field-LawfulFragment (newtype-Lawful 4)))

-- `StartAuthSessionResp`
pub record StartAuthSessionResp : Type 0 where
  pub nonce_tpm : Tpm2b

abbrev pub start_auth_session_resp_fields : StartAuthSessionResp → Tpm2b
start_auth_session_resp_fields s = s.nonce_tpm

abbrev pub start_auth_session_resp_of : Tpm2b → StartAuthSessionResp
start_auth_session_resp_of r = record { nonce_tpm = r }

unfoldable pub start_auth_session_resp : Marshalable StartAuthSessionResp
start_auth_session_resp =
    derive start_auth_session_resp_fields start_auth_session_resp_of (field tpm2b_digest)

unfoldable pub start_auth_session_resp_format : Format StartAuthSessionResp
start_auth_session_resp_format = via_format start_auth_session_resp_fields tpm2b_digest_format

pub start_auth_session_resp-Lawful : Lawful start_auth_session_resp start_auth_session_resp_format
unfolding start_auth_session_resp start_auth_session_resp_format
start_auth_session_resp-Lawful =
    derive-Lawful start_auth_session_resp_fields start_auth_session_resp_of (λ s. refl) (λ r. refl)
      (field-LawfulFragment tpm2b_digest-Lawful)

-- `CreatePrimaryCmd`
pub record CreatePrimaryCmd : Type 0 where
  pub in_sensitive : Tpm2b
  pub in_public : Tpm2b
  pub outside_info : Tpm2b
  pub creation_pcr : TpmlPcrSelection

abbrev pub create_primary_cmd_fields :
    CreatePrimaryCmd → (Tpm2b × (Tpm2b × (Tpm2b × TpmlPcrSelection)))
create_primary_cmd_fields s = (s.in_sensitive, (s.in_public, (s.outside_info, s.creation_pcr)))

abbrev pub create_primary_cmd_of : (Tpm2b × (Tpm2b × (Tpm2b × TpmlPcrSelection))) → CreatePrimaryCmd
create_primary_cmd_of r = record {
  in_sensitive = r.0;
  in_public = r.1.0;
  outside_info = r.1.1.0;
  creation_pcr = r.1.1.1;
}

unfoldable pub create_primary_cmd : Marshalable CreatePrimaryCmd
create_primary_cmd = derive create_primary_cmd_fields create_primary_cmd_of (
    field tpm2b_sensitive_create
    then field tpm2b_public
    then field tpm2b_data
    then field tpml_pcr_selection)

unfoldable pub create_primary_cmd_format : Format CreatePrimaryCmd
create_primary_cmd_format = via_format create_primary_cmd_fields (
    pair_format tpm2b_sensitive_create_format
      (pair_format tpm2b_public_format (pair_format tpm2b_data_format tpml_pcr_selection_format)))

pub create_primary_cmd-Lawful : Lawful create_primary_cmd create_primary_cmd_format
unfolding create_primary_cmd create_primary_cmd_format
create_primary_cmd-Lawful =
    derive-Lawful create_primary_cmd_fields create_primary_cmd_of (λ s. refl) (λ r. refl)
      (then-LawfulFragment (field-LawfulFragment tpm2b_sensitive_create-Lawful) (
        then-LawfulFragment (field-LawfulFragment tpm2b_public-Lawful) (
          then-LawfulFragment (field-LawfulFragment tpm2b_data-Lawful)
            (field-LawfulFragment tpml_pcr_selection-Lawful))))

-- `CreatePrimaryResp`
pub record CreatePrimaryResp : Type 0 where
  pub out_public : Tpm2b
  pub creation_data : Tpm2b
  pub creation_hash : Tpm2b
  pub creation_ticket : TpmtTkCreation
  pub name : Tpm2b

abbrev pub create_primary_resp_fields :
    CreatePrimaryResp → (Tpm2b × (Tpm2b × (Tpm2b × (TpmtTkCreation × Tpm2b))))
create_primary_resp_fields s =
    (s.out_public, (s.creation_data, (s.creation_hash, (s.creation_ticket, s.name))))

abbrev pub create_primary_resp_of :
    (Tpm2b × (Tpm2b × (Tpm2b × (TpmtTkCreation × Tpm2b)))) → CreatePrimaryResp
create_primary_resp_of r = record {
  out_public = r.0;
  creation_data = r.1.0;
  creation_hash = r.1.1.0;
  creation_ticket = r.1.1.1.0;
  name = r.1.1.1.1;
}

unfoldable pub create_primary_resp : Marshalable CreatePrimaryResp
create_primary_resp = derive create_primary_resp_fields create_primary_resp_of (
    field tpm2b_public
    then field tpm2b_creation_data
    then field tpm2b_digest
    then field tpmt_tk_creation
    then field tpm2b_name)

unfoldable pub create_primary_resp_format : Format CreatePrimaryResp
create_primary_resp_format = via_format create_primary_resp_fields (
    pair_format tpm2b_public_format (
      pair_format tpm2b_creation_data_format
        (pair_format tpm2b_digest_format (pair_format tpmt_tk_creation_format tpm2b_name_format))))

pub create_primary_resp-Lawful : Lawful create_primary_resp create_primary_resp_format
unfolding create_primary_resp create_primary_resp_format
create_primary_resp-Lawful =
    derive-Lawful create_primary_resp_fields create_primary_resp_of (λ s. refl) (λ r. refl)
      (then-LawfulFragment (field-LawfulFragment tpm2b_public-Lawful) (
        then-LawfulFragment (field-LawfulFragment tpm2b_creation_data-Lawful) (
          then-LawfulFragment (field-LawfulFragment tpm2b_digest-Lawful) (
            then-LawfulFragment (field-LawfulFragment tpmt_tk_creation-Lawful)
              (field-LawfulFragment tpm2b_name-Lawful)))))
