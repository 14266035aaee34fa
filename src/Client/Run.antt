-- ===== src/Client/Run.antt =====
-- client/src/lib.rs: a command and its response. The trait `Tpm` is what carries the bytes.
pub mod Laws
use tpm_rs.Prelude.{ℕ, List, take, replicate}
use tpm_rs.Outcome.{Outcome, ok, err, panic, ◌>>=◌}
use tpm_rs.Errors.{TssError}
use tpm_rs.Client.Session.{Session, NoSession, no_session}
use tpm_rs.Client.Areas.{AuthorizationArea, area_0}
use tpm_rs.Client.Emit.{Emitted}
use tpm_rs.Client.Command.{TpmCommand, build_command}
use tpm_rs.Client.Response.{read_response}

pub record Tpm (T : Type 0) : Type 0 where
  pub transact : T → List ℕ → List ℕ → Outcome TssError (List ℕ) × T

abbrev pub cmd_buffer_size : ℕ
cmd_buffer_size = 4096

abbrev pub resp_buffer_size : ℕ
resp_buffer_size = 4096

module _ {T : Type 0} (tpm : Tpm T) where
  module _ {X Y Z A : Type 0} (x_ops : Session X) (y_ops : Session Y) (z_ops : Session Z)
      (area : AuthorizationArea X Y Z A) {C H R K : Type 0} (t : TpmCommand C H R K) where
    -- From what the transaction returned.
    unfoldable pub after_transact : A → Outcome TssError (List ℕ) × T → Outcome TssError (R × K) × T
    after_transact sessions (ok resp_buffer, s) =
        (read_response x_ops y_ops z_ops area t sessions resp_buffer, s)
    after_transact sessions (err e, s) = (err e, s)
    after_transact sessions (panic, s) = (panic, s)

    -- With the command in its buffer.
    unfoldable pub send : A → T → Emitted → Outcome TssError (R × K) × T
    send sessions s (ok written, cmd_buffer) =
        after_transact sessions
          (tpm.transact s (take written cmd_buffer) (replicate resp_buffer_size 0))
    send sessions s (err e, cmd_buffer) = (err e, s)
    send sessions s (panic, cmd_buffer) = (panic, s)

    unfoldable pub run_command_with_handles : C → H → A → T → Outcome TssError (R × K) × T
    run_command_with_handles cmd cmd_handles sessions s = send sessions s (
        build_command x_ops y_ops z_ops area t cmd cmd_handles sessions
          (replicate cmd_buffer_size 0))

  module _ {C H R K : Type 0} (t : TpmCommand C H R K) where
    -- `run_command`: no sessions, and default handles.
    unfoldable pub run_command : C → T → Outcome TssError R × T
    run_command cmd s =
        let (result, s') =
          run_command_with_handles no_session no_session no_session area_0 t cmd t.handles_default
            tt s in
        ((do (resp, resp_handles) ← result; ok resp), s')
