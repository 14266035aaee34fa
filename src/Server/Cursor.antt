-- ===== src/Server/Cursor.antt =====
-- server/src/req_resp.rs: the cursor over a request and its response. `RequestThenResponse` and
-- `Response` are views of the cursor and hold nothing else.
use tpm_rs.Prelude.{ℕ, ◌+◌, List, Option, length}
use tpm_rs.Outcome.{Outcome, ok, ◌>>=◌}
use tpm_rs.Server.Buffer.{
  TpmBuffers, WriteOutOfBounds, map_option, read_be_u16, read_be_u32, write, write_callback,
}

pub record RequestResponseCursor (B : Type 0) : Type 0 where
  pub buffers : B
  pub request_offset : ℕ
  pub response_offset : ℕ

module _ {B : Type 0} (ops : TpmBuffers B) where
  unfoldable pub cursor_new : B → ℕ → RequestResponseCursor B
  cursor_new buffers response_offset = record {
    buffers = buffers;
    request_offset = 0;
    response_offset = response_offset;
  }

  -- The cursor behind a field of `size` bytes of the request.
  abbrev pub advance_request : RequestResponseCursor B → ℕ → RequestResponseCursor B
  advance_request c size = record {
    buffers = c.buffers;
    request_offset = c.request_offset + size;
    response_offset = c.response_offset;
  }

  -- `RequestThenResponse::read_be_u16` and `read_be_u32`
  unfoldable pub cursor_read_be_u16 : RequestResponseCursor B → Option (ℕ × RequestResponseCursor B)
  cursor_read_be_u16 c =
      map_option (λ n. (n, advance_request c 2))
        (read_be_u16 (ops.request_read_into c.buffers) c.request_offset)

  unfoldable pub cursor_read_be_u32 : RequestResponseCursor B → Option (ℕ × RequestResponseCursor B)
  cursor_read_be_u32 c =
      map_option (λ n. (n, advance_request c 4))
        (read_be_u32 (ops.request_read_into c.buffers) c.request_offset)

  -- The cursor whose response is `w`, with `size` bytes more written.
  abbrev pub advance_response : RequestResponseCursor B → ℕ → List ℕ → RequestResponseCursor B
  advance_response c size w = record {
    buffers = ops.set_response c.buffers w;
    request_offset = c.request_offset;
    response_offset = c.response_offset + size;
  }

  -- `Response::write` and `Response::write_callback`
  unfoldable pub cursor_write : RequestResponseCursor B → List ℕ → Option (RequestResponseCursor B)
  cursor_write c bytes =
      map_option (advance_response c (length bytes))
        (write c.response_offset bytes (ops.get_response c.buffers))

  unfoldable pub cursor_write_callback {ℓ} :
      {S : Type ℓ}
      → RequestResponseCursor B
      → ℕ
      → (List ℕ → Outcome WriteOutOfBounds (S × List ℕ))
      → Outcome WriteOutOfBounds (S × RequestResponseCursor B)
  cursor_write_callback c size callback = do
    (s, w) ← write_callback c.response_offset size callback (ops.get_response c.buffers)
    ok (s, advance_response c size w)
