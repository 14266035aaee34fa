-- ===== src/Client/Response.antt =====
-- client/src/lib.rs: how a response is read.
pub mod Sessions
pub mod Laws
pub mod Accepted
use tpm_rs.Prelude.{ℕ, ◌-◌, List, Option, none, some, length, take, drop, ltb, ◌==◌, if◌then◌else◌}
use tpm_rs.Outcome.{Outcome, ok, err, panic, ◌>>=◌, map_err}
use tpm_rs.Errors.{TssError, from_rc, tss_try_from, out_of_memory, tpm_unexpected}
use tpm_rs.Marshal.Core.{Marshalable, prim}
use tpm_rs.Base.Constants.Tags.{TpmSt, tpm_st_number}
use tpm_rs.Base.Session.{tpms_auth_response}
use tpm_rs.Client.Session.{Session}
use tpm_rs.Client.Areas.{AuthorizationArea}
use tpm_rs.Client.Header.{RespHeader, resp_header}
use tpm_rs.Client.Command.{TpmCommand}

-- `T::try_unmarshal(buffer)?` where a `TssError` is returned.
abbrev pub parse {ℓ} : {A : Type ℓ} → Marshalable A → List ℕ → Outcome TssError (A × List ℕ)
parse m buffer = map_err from_rc (m.try_unmarshal buffer)

unfoldable pub read_response_header : List ℕ → Outcome TssError (RespHeader × ℕ)
read_response_header buffer = do
  (header, rest) ← parse resp_header buffer
  elim (tss_try_from header.rc) [
    | some error ↦ err error
    | none ↦ ok (header, length buffer - length rest)
  ]

-- `let Some(s) = s else { return Ok(()) }`, its response, and the statements behind it.
unfoldable pub read_optional :
    {X : Type 0}
    → Session X
    → Option X
    → (List ℕ → Outcome TssError (List ℕ))
    → List ℕ
    → Outcome TssError (List ℕ)
read_optional ops none next buffer = ok buffer
read_optional ops (some s) next buffer = do
  (auth, rest) ← parse tpms_auth_response buffer
  u ← ops.validate_auth_response s auth
  next rest

-- `&buffer[from..to]`
unfoldable pub slice : ℕ → ℕ → List ℕ → Outcome TssError (List ℕ)
slice from to buffer =
    if ltb to from
    then panic
    else if ltb (length buffer) to
    then panic
    else ok (drop from (take to buffer))

module _ {X Y Z A : Type 0} (x_ops : Session X) (y_ops : Session Y) (z_ops : Session Z)
    (area : AuthorizationArea X Y Z A) where
  -- The bytes behind the sessions.
  unfoldable pub read_response_sessions : A → List ℕ → Outcome TssError (List ℕ)
  read_response_sessions a buffer =
      let (s1, s2, s3) = area.decompose_ref a in
      read_optional x_ops s1 (read_optional y_ops s2 (read_optional z_ops s3 (λ b. ok b))) buffer

  module _ {C H R K : Type 0} (t : TpmCommand C H R K) (sessions : A) where
    -- The part of `run_command_with_handles` behind the slice of the response.
    unfoldable pub read_body : RespHeader → List ℕ → Outcome TssError (R × K)
    read_body header unmarsh = do
      (resp_handles, b) ← parse t.resp_handles unmarsh
      b' ←
          (if header.tag == tpm_st_number TpmSt.sessions
            then (do (param_size, rest) ← parse (prim 4) b; ok rest)
            else ok b)
      (resp, b'') ← parse t.resp b'
      b''' ← read_response_sessions sessions b''
      if length b''' == 0 then ok (resp, resp_handles) else err tpm_unexpected

    -- The part behind the transaction.
    unfoldable pub read_response : List ℕ → Outcome TssError (R × K)
    read_response resp_buffer = do
      (header, read) ← read_response_header resp_buffer
      size ← (if ltb (length resp_buffer) header.size then err out_of_memory else ok header.size)
      unmarsh ← slice read size resp_buffer
      read_body header unmarsh
