-- ===== src/Server/Context.antt =====
-- server/src/tpmctx.rs and server/src/handler/random.rs: from a request to its response.
use tpm_rs.Prelude.{ℕ, ◌%◌, ◌^◌, List, none, some, ◌==◌, if◌then◌else◌}
use tpm_rs.Outcome.{Outcome, ok, err, panic, ◌>>=◌, map_err}
use tpm_rs.Errors.{TpmRcError, command_size, command_code, memory}
use tpm_rs.Marshal.Core.{Written, to_be_bytes}
use tpm_rs.Derive.Fields.{continue}
use tpm_rs.Base.Constants.Commands.{TpmCc, tpm_cc_number}
use tpm_rs.Server.Buffer.{
  TpmBuffers, WriteOutOfBounds, SeparateBuffers, ok_or, write, separate, in_out, in_out_new,
}
use tpm_rs.Server.Cursor.{
  RequestResponseCursor, cursor_new, cursor_read_be_u16, cursor_read_be_u32, cursor_write_callback,
}
use tpm_rs.Server.Crypto.{ServerError, Drbg, EntropySource, Crypto, try_get_random}

-- Behind an error stands `todo!()`.
unfoldable pub or_failure_mode {ℓ} :
    {A : Type ℓ} → Outcome ServerError A → Outcome WriteOutOfBounds A
or_failure_mode (ok a) = ok a
or_failure_mode (err e) = panic
or_failure_mode panic = panic

-- `response.write(offset, …).or(Err(TpmRcError::Memory))?`
unfoldable pub write_or_memory : ℕ → List ℕ → List ℕ → Written
write_or_memory offset bytes response = elim (write offset bytes response) [
  | some w ↦ (ok 0, w)
  | none ↦ (err memory, response)
]

-- The three fields of the header of the response, and `Ok(response_size)`.
unfoldable pub write_header : ℕ → List ℕ → Written
write_header response_size response =
    continue (write_or_memory 0 (to_be_bytes 2 0x8001) response) λ _ r.
      continue (write_or_memory 2 (to_be_bytes 4 (response_size % 2 ^ 32)) r)
        λ _ r'. continue (write_or_memory 6 (to_be_bytes 4 0) r') λ _ r''. (ok response_size, r'')

-- `TpmContext::fill_error`
unfoldable pub fill_error : TpmRcError → List ℕ → ℕ × List ℕ
fill_error error response = elim (write 6 (to_be_bytes 4 error.code) response) [
  | some w ↦ (10, w)
  | none ↦ (0, response)
]

module _ {D S : Type 0} (rng : Drbg D) (source : EntropySource S) where
  -- `CommandHandler::get_random`, with `get_random_or_faiure_mode` as the callback.
  module _ {B : Type 0} (ops : TpmBuffers B) where
    unfoldable pub get_random :
        Crypto D S
        → RequestResponseCursor B
        → Outcome TpmRcError (Crypto D S × RequestResponseCursor B)
    get_random crypto request = do
      (requested_bytes, response) ← ok_or (cursor_read_be_u16 ops request) command_size
      map_err (λ e. memory)
          (cursor_write_callback ops response requested_bytes
            λ buffer. or_failure_mode (try_get_random rng source crypto buffer))

    unfoldable pub dispatch :
        ℕ
        → Crypto D S
        → RequestResponseCursor B
        → Outcome TpmRcError (Crypto D S × RequestResponseCursor B)
    dispatch code crypto request =
        if code == tpm_cc_number TpmCc.get_random
        then get_random crypto request
        else err command_code

    -- `execute_command` up to the response of the handler; before that no state changes.
    unfoldable pub handle_request :
        Crypto D S → B → Outcome TpmRcError (Crypto D S × RequestResponseCursor B)
    handle_request crypto buffers = do
      (session, c) ← ok_or (cursor_read_be_u16 ops (cursor_new ops buffers 10)) command_size
      (size, c') ← ok_or (cursor_read_be_u32 ops c) command_size
      c'' ← (if size == ops.request_len buffers then ok c' else err command_size)
      (code, c''') ← ok_or (cursor_read_be_u32 ops c'') command_size
      dispatch code crypto c'''

    -- The rest of `execute_command`.
    unfoldable pub respond :
        Crypto D S
        → B
        → Outcome TpmRcError (Crypto D S × RequestResponseCursor B)
        → Outcome TpmRcError ℕ × (Crypto D S × B)
    respond crypto buffers (ok (crypto', c)) =
        let (result, w) = write_header c.response_offset (ops.get_response c.buffers) in
        (result, (crypto', ops.set_response c.buffers w))
    respond crypto buffers (err e) = (err e, (crypto, buffers))
    respond crypto buffers panic = (panic, (crypto, buffers))

    unfoldable pub execute_command : Crypto D S → B → Outcome TpmRcError ℕ × (Crypto D S × B)
    execute_command crypto buffers = respond crypto buffers (handle_request crypto buffers)

    -- The size that is returned, the state, and the buffer of the response.
    unfoldable pub finish :
        Outcome TpmRcError ℕ × (Crypto D S × B) → Outcome ⊥ (ℕ × (Crypto D S × List ℕ))
    finish (ok size, (crypto, b)) = ok (size, (crypto, ops.get_response b))
    finish (err e, (crypto, b)) =
        let (size, w) = fill_error e (ops.get_response b) in ok (size, (crypto, w))
    finish (panic, (crypto, b)) = panic

  unfoldable pub execute_command_separate :
      Crypto D S → List ℕ → List ℕ → Outcome ⊥ (ℕ × (Crypto D S × List ℕ))
  execute_command_separate crypto request response =
      let buf : SeparateBuffers = record { reader = request; writer = response } in
      finish separate (execute_command separate crypto buf)

  unfoldable pub execute_command_in_place :
      Crypto D S → List ℕ → ℕ → Outcome ⊥ (ℕ × (Crypto D S × List ℕ))
  execute_command_in_place crypto buffer request_size =
      finish in_out (execute_command in_out crypto (in_out_new buffer request_size))
