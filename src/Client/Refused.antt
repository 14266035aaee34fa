-- ===== src/Client/Refused.antt =====
-- The client (client/src/lib.rs) with a command that the server (server/src/tpmctx.rs) does not know.
use tpm_rs.Prelude.{
  ℕ, ◌+◌, ◌^◌, ◌≤◌, ◌<◌, ◌≡◌, ◌≢◌, ◌∙◌, ap, refl, arith, Option, List, ◌++◌, length, drop,
  length-replicate,
}
use tpm_rs.Outcome.{ok, err}
use tpm_rs.Errors.{command_code}
use tpm_rs.Marshal.Core.{to_be_bytes}
use tpm_rs.Marshal.Lawful.{Format, Lawful}
use tpm_rs.Base.Session.{TpmsAuthCommand}
use tpm_rs.Base.Constants.Commands.{TpmCc, tpm_cc_number}
use tpm_rs.Server.Crypto.{Drbg, EntropySource, Crypto}
use tpm_rs.Server.Spec.{reject}
use tpm_rs.Server.Requests.{request_of}
use tpm_rs.Server.Responses.{fill_error-fits, other_command-rejected}
use tpm_rs.Client.Session.{Session}
use tpm_rs.Client.Areas.{AuthorizationArea, is_empty}
use tpm_rs.Client.Command.{TpmCommand}
use tpm_rs.Client.Command.Layout.{command_tag, command_tag-lt, build_command-request_of}
use tpm_rs.Client.Command.Sessions.{Authorized, sessions_bytes}
use tpm_rs.Client.Response.Laws.{read_response-failed}
use tpm_rs.Client.Run.{after_transact, run_command_with_handles}
use tpm_rs.Client.Run.Laws.{run_command_with_handles-sent}
use tpm_rs.Client.Interop.{relay, service, buffer_4096}

-- What stands in a buffer of zeros behind fill_error: neither a tag nor a size, and the code.
refused_response : List ℕ
refused_response = request_of 0 0 command_code.code (drop 10 buffer_4096)

reject-zeros :
    {C : Type 0} (crypto : C)
    → reject crypto buffer_4096 command_code ≡ ok (10, (crypto, refused_response))
unfolding refused_response request_of to_be_bytes
reject-zeros crypto =
    rw (fill_error-fits command_code buffer_4096 (omega (arith, length-replicate {A = ℕ} 4096 0)))
      refl

module _ {D S : Type 0} (rng : Drbg D) (source : EntropySource S) {X Y Z A : Type 0}
    (x_ops : Session X) (y_ops : Session Y) (z_ops : Session Z) (area : AuthorizationArea X Y Z A)
    {C H R K : Type 0} (t : TpmCommand C H R K) (c_format : Format C) (h_format : Format H)
    (c_laws : Lawful t.command c_format) (h_laws : Lawful t.handles h_format) (cmd : C)
    (handles : H) (sessions : A) (c1 c2 c3 : Option TpmsAuthCommand) where
  -- What stands behind the header of the request.
  abbrev pub parameters : List ℕ
  parameters =
      h_format.encode handles
      ++ (sessions_bytes x_ops y_ops z_ops area sessions c1 c2 c3 ++ c_format.encode cmd)

  -- If a command whose code is of 32 bits and not that of GetRandom, with a lawful marshalling
  -- of it and of its handles, up to three sessions whose commands are valid, valid parameters
  -- and handles, and at most 4096 bytes in all, is run against execute_command_separate, then
  -- the client returns the error whose code is that of CommandCode, and the state of the server
  -- does not change.
  pub run_command_with_handles-refused :
      (crypto : Crypto D S)
      → Authorized x_ops y_ops z_ops area sessions c1 c2 c3
      → c_format.Valid cmd
      → h_format.Valid handles
      → 10 + length parameters ≤ 4096
      → t.cmd_code < 2 ^ 32
      → t.cmd_code ≢ tpm_cc_number TpmCc.get_random
      → run_command_with_handles
          (service rng source)
          x_ops
          y_ops
          z_ops
          area
          t
          cmd
          handles
          sessions
          crypto
        ≡ (err (record { code = command_code.code }), crypto)
  unfolding after_transact refused_response
  run_command_with_handles-refused crypto given cmd_valid handles_valid room small other =
      let len : length buffer_4096 ≡ 4096 = length-replicate {A = ℕ} 4096 0 in
      let tag = command_tag (is_empty area sessions) in
      let request = request_of tag (10 + length parameters) t.cmd_code parameters in
      let built =
        build_command-request_of x_ops y_ops z_ops area t c_format h_format c_laws h_laws cmd
          handles sessions c1 c2 c3 given cmd_valid handles_valid small buffer_4096
          (omega (arith, len)) (omega (arith, len, room)) in
      let refused =
        other_command-rejected rng source crypto tag t.cmd_code parameters buffer_4096
          (command_tag-lt (is_empty area sessions)) small (omega (arith, room)) other in
      run_command_with_handles-sent (service rng source) x_ops y_ops z_ops area t cmd handles
        sessions crypto request built
      ∙ ap
          (λ o.
            after_transact (service rng source) x_ops y_ops z_ops area t sessions (relay crypto o))
          (refused ∙ reject-zeros crypto)
      ∙ ap (λ r. (r, crypto))
          (read_response-failed x_ops y_ops z_ops area t sessions 0 0 command_code.code
            (drop 10 buffer_4096) (omega arith) (omega arith) (omega arith) (λ e. omega (arith, e)))
