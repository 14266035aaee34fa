-- ===== src/Client/Command.antt =====
-- client/src/lib.rs and base/src/commands.rs: what a command is, and how its bytes are put together.
pub mod Sessions
pub mod Layout
use tpm_rs.Prelude.{ℕ, ◌-◌, ◌%◌, ◌^◌, Bool, List, Option, none, some, replicate, if◌then◌else◌}
use tpm_rs.Outcome.{Outcome, ok, err, panic, ◌>>=◌}
use tpm_rs.Marshal.Core.{Marshalable, prim}
use tpm_rs.Base.Session.{tpms_auth_command}
use tpm_rs.Client.Session.{Session}
use tpm_rs.Client.Areas.{AuthorizationArea, is_empty}
use tpm_rs.Client.Emit.{Emitted, emit, emit_at, and_then}
use tpm_rs.Client.Header.{CmdHeader, cmd_header, cmd_header_new}

-- The trait `TpmCommand`, for a command `C` with the handles `H` and a response `R` with the handles
-- `K`.
pub record TpmCommand (C H R K : Type 0) : Type 0 where
  pub cmd_code : ℕ
  pub command : Marshalable C
  pub handles : Marshalable H
  pub handles_default : H
  pub resp : Marshalable R
  pub resp_handles : Marshalable K

-- `marshal_auth_size`; the offset is at least 4.
unfoldable pub marshal_auth_size : ℕ → List ℕ → Emitted
marshal_auth_size auth_offset buffer =
    and_then (emit (prim 4) ((auth_offset - 4) % 2 ^ 32) buffer) λ n b. (ok auth_offset, b)

-- `auth_offset += s.get_auth_command().try_marshal(&mut buffer[auth_offset..])?`
unfoldable pub emit_session : {X : Type 0} → Session X → X → ℕ → List ℕ → Emitted
emit_session ops s auth_offset buffer = elim (ops.get_auth_command s) [
  | ok c ↦ emit_at (emit tpms_auth_command c) auth_offset buffer
  | err e ↦ (err e, buffer)
  | panic ↦ (panic, buffer)
]

-- `let Some(s) = s else { return marshal_auth_size(auth_offset, buffer); }`, the session, and the
-- statements behind it.
unfoldable pub emit_optional :
    {X : Type 0} → Session X → Option X → (ℕ → List ℕ → Emitted) → ℕ → List ℕ → Emitted
emit_optional ops none next auth_offset buffer = marshal_auth_size auth_offset buffer
emit_optional ops (some s) next auth_offset buffer =
    and_then (emit_session ops s auth_offset buffer) next

module _ {X Y Z A : Type 0} (x_ops : Session X) (y_ops : Session Y) (z_ops : Session Z)
    (area : AuthorizationArea X Y Z A) where
  unfoldable pub write_command_sessions : A → List ℕ → Emitted
  write_command_sessions a buffer =
      let (s1, s2, s3) = area.decompose_ref a in
      if is_empty area a
      then (ok 0, buffer)
      else emit_optional x_ops s1
          (emit_optional y_ops s2 (emit_optional z_ops s3 marshal_auth_size)) 4 buffer

  -- The part of `run_command_with_handles` before the transaction: the length of the command and
  -- the buffer that it stands in.
  unfoldable pub build_command :
      {C H R K : Type 0} → TpmCommand C H R K → C → H → A → List ℕ → Emitted
  build_command t cmd cmd_handles sessions buffer =
      let header = cmd_header_new (is_empty area sessions) t.cmd_code in
      and_then (emit cmd_header header buffer) λ w b.
        and_then (emit_at (emit t.handles cmd_handles) w b) λ w b.
          and_then (emit_at (write_command_sessions sessions) w b) λ w b.
            and_then (emit_at (emit t.command cmd) w b) λ w b.
              and_then
                (emit cmd_header
                  (record { tag = header.tag; size = w % 2 ^ 32; code = header.code }) b)
                λ n b'. (ok w, b')
