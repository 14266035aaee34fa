-- ===== src/Client/Response/Accepted.antt =====
-- client/src/lib.rs: the response that a service sends which marshals what the client reads.
use tpm_rs.Prelude.{
  ℕ, ◌+◌, ◌-◌, ◌^◌, ◌<◌, ◌≡◌, ap, refl, arith, Option, false, List, [], ◌++◌, length, take,
  take-append, append_assoc, ltb, ◌==◌, le→ltb, if◌then◌else◌, Bool-cases, inl, inr, length-append,
  ◌∙◌,
}
use tpm_rs.Outcome.{Outcome, ok, err, ◌>>=◌}
use tpm_rs.Errors.{TssError, tpm_unexpected}
use tpm_rs.Marshal.Core.{to_be_bytes, prim}
use tpm_rs.Marshal.Lawful.{Format, Lawful, prim-Lawful}
use tpm_rs.Base.Session.{TpmsAuthResponse}
use tpm_rs.Base.Constants.Tags.{TpmSt, tpm_st_number}
use tpm_rs.Server.Requests.{request_of}
use tpm_rs.Client.Session.{Session}
use tpm_rs.Client.Areas.{AuthorizationArea}
use tpm_rs.Client.Command.{TpmCommand}
use tpm_rs.Client.Response.{read_body, read_response, parse}
use tpm_rs.Client.Response.Sessions.{
  parse-encode, Validated, responses_bytes, read_response_sessions-append,
}
use tpm_rs.Client.Response.Laws.{read_response-sized}

-- The size of the parameters, which only a response with sessions has.
abbrev pub param_size_bytes : ℕ → ℕ → List ℕ
param_size_bytes tag param_size =
    if tag == tpm_st_number TpmSt.sessions then to_be_bytes 4 param_size else []

abbrev skip_param_size : ℕ → List ℕ → Outcome TssError (List ℕ)
skip_param_size tag b =
    if tag == tpm_st_number TpmSt.sessions
    then (do (param_size, rest) ← parse (prim 4) b; ok rest)
    else ok b

skip_param_size-append :
    (tag param_size : ℕ) (rest : List ℕ)
    → param_size < 2 ^ 32
    → skip_param_size tag (param_size_bytes tag param_size ++ rest) ≡ ok rest
skip_param_size-append tag param_size rest small =
    elim (Bool-cases (tag == tpm_st_number TpmSt.sessions)) [
      | inl with_sessions ↦
          rw
            (with_sessions, (prim-Lawful 4).unmarshal_encode param_size rest (omega (arith, small)))
            refl
      | inr without ↦ rw without refl
    ]

module _ {X Y Z A : Type 0} (x_ops : Session X) (y_ops : Session Y) (z_ops : Session Z)
    (area : AuthorizationArea X Y Z A) {C H R K : Type 0} (t : TpmCommand C H R K) (sessions : A)
    (r_format : Format R) (k_format : Format K) (r_laws : Lawful t.resp r_format)
    (k_laws : Lawful t.resp_handles k_format) where
  -- What stands behind the header: the handles, the size of the parameters, the response, and the
  -- responses of the sessions.
  abbrev pub payload : ℕ → ℕ → R → K → List ℕ → List ℕ
  payload tag param_size resp handles auths =
      k_format.encode handles
      ++ (param_size_bytes tag param_size ++ (r_format.encode resp ++ auths))

  module _ (tag param_size : ℕ) (resp : R) (handles : K) (r1 r2 r3 : Option TpmsAuthResponse)
      (given : Validated x_ops y_ops z_ops area sessions r1 r2 r3)
      (resp_valid : r_format.Valid resp) (handles_valid : k_format.Valid handles)
      (param_size_small : param_size < 2 ^ 32) where
    abbrev pub auths : List ℕ
    auths = responses_bytes x_ops y_ops z_ops area sessions r1 r2 r3

    read_body-payload :
        (size rc : ℕ) (extra : List ℕ)
        → read_body x_ops y_ops z_ops area t sessions
            (record { tag = tag; size = size; rc = rc })
            (payload tag param_size resp handles auths ++ extra)
          ≡ (if length extra == 0 then ok (resp, handles) else err tpm_unexpected)
    unfolding read_body
    read_body-payload size rc extra =
        let ks = k_format.encode handles in
        let ps = param_size_bytes tag param_size in
        let rs = r_format.encode resp in
        rw
          (
            append_assoc ks (ps ++ (rs ++ auths)) extra,
            append_assoc ps (rs ++ auths) extra,
            append_assoc rs auths extra,
            read_body,
            parse-encode k_laws handles (ps ++ (rs ++ (auths ++ extra))) handles_valid,
            skip_param_size-append tag param_size (rs ++ (auths ++ extra)) param_size_small,
            parse-encode r_laws resp (auths ++ extra) resp_valid,
            read_response_sessions-append x_ops y_ops z_ops area sessions r1 r2 r3 extra given,
          )
          refl

    -- A response without an error whose size covers the handles, the size of the parameters
    -- if the tag is that of sessions, the response and the responses that the sessions
    -- validate, all valid, is read as that response and those handles if no byte follows
    -- within the size, and refused with TpmUnexpected if any does; what stands behind the
    -- size does not matter.
    pub read_response-payload :
        (extra beyond : List ℕ)
        → tag < 2 ^ 16
        → 10 + length (payload tag param_size resp handles auths ++ extra) < 2 ^ 32
        → read_response x_ops y_ops z_ops area t sessions (
            request_of tag
              (10 + length (payload tag param_size resp handles auths ++ extra))
              0
              ((payload tag param_size resp handles auths ++ extra) ++ beyond))
          ≡ (if length extra == 0 then ok (resp, handles) else err tpm_unexpected)
    read_response-payload extra beyond tag_small small =
        let body = payload tag param_size resp handles auths ++ extra in
        let room : ltb (10 + length (body ++ beyond)) (10 + length body) ≡ false =
          le→ltb (10 + length (body ++ beyond)) (10 + length body)
            (omega (arith, length-append body beyond)) in
        let front : take (10 + length body - 10) (body ++ beyond) ≡ body =
          ap (λ (k : ℕ). take k (body ++ beyond))
            (let e : 10 + length body - 10 ≡ length body = omega arith in e)
          ∙ take-append body beyond in
        read_response-sized x_ops y_ops z_ops area t sessions tag (10 + length body)
          (body ++ beyond) tag_small small
        ∙ rw (room, le→ltb (10 + length body) 10 (omega arith), front)
            (read_body-payload (10 + length body) 0 extra)
