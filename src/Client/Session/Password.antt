-- ===== src/Client/Session/Password.antt =====
-- client/src/sessions/password.rs: what a session with a password sends, and what it accepts.
use tpm_rs.Prelude.{
  ℕ, ◌≤◌, ◌≡◌, ◌≢◌, ◌⊎◌, refl, arith, List, [], ◌∷◌, ◌++◌, length, take, All, length-take,
  Bool-cases, inl, inr, ◌==◌, sym, ap, ◌∙◌, le→ltb,
}
use tpm_rs.Outcome.{ok, err}
use tpm_rs.Errors.{TpmRcError, bad_parameter}
use tpm_rs.Marshal.Core.{IsByte, to_be_bytes}
use tpm_rs.Tpm2b.Simple.{prefix, default, get_buffer}
use tpm_rs.Tpm2b.SimpleLaws.{IsSized, overlay-IsSized}
use tpm_rs.Tpm2b.FromBytes.{from_bytes-get_buffer}
use tpm_rs.Base.Buffers.{tpm2b_digest_capacity}
use tpm_rs.Base.Session.{TpmsAuthResponse, tpms_auth_command_format}
use tpm_rs.Client.Session.{
  PasswordSession, password_new, get_secret, rs_pw, password_command, password_validate,
}

prefix-eq-ok :
    (n : ℕ) (v p : List ℕ)
    → prefix {E = TpmRcError} n v ≡ ok p
    → n ≤ length v
    → (take n v ≡ p) × (n ≡ length p)
unfolding prefix
prefix-eq-ok n v p e fits =
    let same : take n v ≡ p = cc (rw (le→ltb (length v) n fits) at e) in
    (same, sym (ap length (sym same) ∙ length-take n v fits))

default-IsSized : (capacity : ℕ) → IsSized capacity (default capacity)
unfolding default
default-IsSized capacity = overlay-IsSized capacity 0 [] refl (omega arith) (omega arith) tt

-- A password that fits a digest makes a session whose secret is the password and whose command is
-- valid, with the bytes of the handle RS_PW, an empty nonce, no attributes, and the password with
-- its size.
pub password_command-bytes :
    (password : List ℕ)
    → length password ≤ tpm2b_digest_capacity
    → All IsByte password
    → (s : PasswordSession) × (password_new password ≡ ok s)
      × (get_secret s ≡ ok password)
      × tpms_auth_command_format.Valid (password_command s)
      × (tpms_auth_command_format.encode (password_command s)
          ≡ to_be_bytes 4 rs_pw
            ++ (to_be_bytes 2 0 ++ (0 ∷ to_be_bytes 2 (length password) ++ password)))
unfolding password_new get_secret get_buffer tpms_auth_command_format default to_be_bytes
password_command-bytes password short bytes =
    let (t, made, sized, content) =
      from_bytes-get_buffer tpm2b_digest_capacity password short (omega (arith, short)) bytes in
    let (front, len) =
      prefix-eq-ok t.size t.buffer password content (omega (arith, sized.full, sized.size_le)) in
    (
      record { auth = t },
      rw (password_new, made) refl,
      content,
      (omega arith, (default-IsSized tpm2b_digest_capacity, (omega arith, sized))),
      rw (front, len) refl,
    )

-- A response to a password is accepted where its nonce and its hmac are empty and its attributes
-- are 1, and refused with BadParameter where one of the three is not so.
pub password_validate-cases :
    (auth : TpmsAuthResponse)
    → ((password_validate auth ≡ ok tt)
        × (auth.nonce.size ≡ 0)
        × (auth.session_attributes ≡ 1)
        × (auth.hmac.size ≡ 0))
      ⊎ ((password_validate auth ≡ err bad_parameter)
          × ((auth.nonce.size ≢ 0) ⊎ (auth.session_attributes ≢ 1) ⊎ (auth.hmac.size ≢ 0)))
unfolding password_validate
password_validate-cases auth = elim (Bool-cases (auth.nonce.size == 0)) [
  | inr nonce ↦ inr (rw (nonce) refl, inl (ground arith))
  | inl nonce ↦ elim (Bool-cases (auth.session_attributes == 1)) [
    | inr attributes ↦ inr (rw (nonce, attributes) refl, inr (inl (ground arith)))
    | inl attributes ↦ elim (Bool-cases (auth.hmac.size == 0)) [
      | inr hmac ↦ inr (rw (nonce, attributes, hmac) refl, inr (inr (ground arith)))
      | inl hmac ↦ inl (rw (nonce, attributes, hmac) refl, ground arith, ground arith, ground arith)
    ]
  ]
]
