-- ===== src/Client/Run/Laws.antt =====
-- client/src/lib.rs: from the buffer of a command to the transaction.
use tpm_rs.Prelude.{ℕ, ◌≡◌, refl, List, length, drop, replicate, take-append}
use tpm_rs.Client.Session.{Session}
use tpm_rs.Client.Areas.{AuthorizationArea}
use tpm_rs.Client.Command.{TpmCommand, build_command}
use tpm_rs.Client.Emit.Laws.{filled}
use tpm_rs.Client.Run.{
  Tpm, cmd_buffer_size, resp_buffer_size, after_transact, send, run_command_with_handles,
}

module _ {T : Type 0} (tpm : Tpm T) {X Y Z A : Type 0} (x_ops : Session X) (y_ops : Session Y)
    (z_ops : Session Z) (area : AuthorizationArea X Y Z A) {C H R K : Type 0}
    (t : TpmCommand C H R K) where
  -- The bytes that stand in the buffer are what is sent.
  pub run_command_with_handles-sent :
      (cmd : C) (handles : H) (sessions : A) (s : T) (sent : List ℕ)
      → build_command x_ops y_ops z_ops area t cmd handles sessions (replicate cmd_buffer_size 0)
        ≡ filled sent (replicate cmd_buffer_size 0)
      → run_command_with_handles tpm x_ops y_ops z_ops area t cmd handles sessions s
        ≡ after_transact tpm x_ops y_ops z_ops area t sessions
            (tpm.transact s sent (replicate resp_buffer_size 0))
  unfolding run_command_with_handles send
  run_command_with_handles-sent cmd handles sessions s sent built =
      rw (run_command_with_handles, built, send)
        (rw (take-append sent (drop (length sent) (replicate cmd_buffer_size 0))) refl)
