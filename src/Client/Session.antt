-- ===== src/Client/Session.antt =====
-- client/src/sessions/session.rs, nosession.rs and password.rs.
pub mod Password
use tpm_rs.Prelude.{ℕ, List, ◌==◌, ◌&&◌, if◌then◌else◌}
use tpm_rs.Outcome.{Outcome, ok, err, panic, ◌>>=◌}
use tpm_rs.Errors.{TpmRcError, TssError, bad_parameter}
use tpm_rs.Tpm2b.Simple.{Tpm2b, default, from_bytes, get_buffer}
use tpm_rs.Base.Buffers.{tpm2b_digest_capacity}
use tpm_rs.Base.Constants.Tags.{TpmHandle, tpm_handle_number}
use tpm_rs.Base.Session.{TpmsAuthCommand, TpmsAuthResponse}

-- The trait `Session`; `get_auth_command` cannot fail, but it may panic.
pub record Session (X : Type 0) : Type 0 where
  pub get_auth_command : X → Outcome TssError TpmsAuthCommand
  pub validate_auth_response : X → TpmsAuthResponse → Outcome TssError (Unit {0})

pub record NoSession : Type 0 where
  pub inaccessible : Unit {0}

-- Both methods are `unreachable!()`.
abbrev pub no_session : Session NoSession
no_session = record { get_auth_command = λ s. panic; validate_auth_response = λ s auth. panic }

pub record PasswordSession : Type 0 where
  pub auth : Tpm2b

unfoldable pub password_new : List ℕ → Outcome TpmRcError PasswordSession
password_new password = do
  auth ← from_bytes tpm2b_digest_capacity password
  ok (record { auth = auth })

unfoldable pub get_secret : PasswordSession → Outcome TpmRcError (List ℕ)
get_secret s = get_buffer s.auth

abbrev pub rs_pw : ℕ
rs_pw = tpm_handle_number TpmHandle.rspw

abbrev pub password_command : PasswordSession → TpmsAuthCommand
password_command s = record {
  session_handle = rs_pw;
  nonce = default tpm2b_digest_capacity;
  session_attributes = 0;
  hmac = s.auth;
}

unfoldable pub password_validate : TpmsAuthResponse → Outcome TssError (Unit {0})
password_validate auth =
    if auth.nonce.size == 0 && auth.session_attributes == 1 && auth.hmac.size == 0
    then ok tt
    else err bad_parameter

abbrev pub password : Session PasswordSession
password = record {
  get_auth_command = λ s. ok (password_command s);
  validate_auth_response = λ s. password_validate;
}
