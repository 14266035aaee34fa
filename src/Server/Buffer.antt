-- ===== src/Server/Buffer.antt =====
-- server/src/platform/buffer.rs and server/src/buffers. `ReadOutOfBounds` and `WriteOutOfBounds` are
-- unit structs, so what returns them is an `Option`. Offsets are far below `usize::MAX`, so their
-- sums do not wrap.
use tpm_rs.Prelude.{
  ℕ, ◌+◌, min, List, ◌++◌, Option, none, some, length, take, drop, ltb, if◌then◌else◌,
}
use tpm_rs.Outcome.{Outcome, ok, err, ◌>>=◌}
use tpm_rs.Marshal.Core.{from_be_bytes}

-- `Option::map`, and `Option::ok_or`.
abbrev pub map_option {ℓ κ} : {A : Type ℓ} {B : Type κ} → (A → B) → Option A → Option B
map_option f none = none
map_option f (some a) = some (f a)

abbrev pub ok_or {ℓ κ} : {E : Type ℓ} {A : Type κ} → Option A → E → Outcome E A
ok_or none e = err e
ok_or (some a) e = ok a

-- `read_into` of `[u8]`, for an `out` of `size` bytes.
unfoldable pub read_into : ℕ → ℕ → List ℕ → Option (List ℕ)
read_into offset size buffer =
    if ltb (length buffer) (offset + size) then none else some (take size (drop offset buffer))

-- `write` of `[u8]`
unfoldable pub write : ℕ → List ℕ → List ℕ → Option (List ℕ)
write offset bytes buffer =
    if ltb (length buffer) (offset + length bytes)
    then none
    else some (take offset buffer ++ (bytes ++ drop (offset + length bytes) buffer))

pub data WriteOutOfBounds : Type 0 where
  write_out_of_bounds : WriteOutOfBounds

-- `write_callback` of `[u8]`, with the state that the callback changes; the callback may panic.
unfoldable pub write_callback {ℓ} :
    {S : Type ℓ}
    → ℕ
    → ℕ
    → (List ℕ → Outcome WriteOutOfBounds (S × List ℕ))
    → List ℕ
    → Outcome WriteOutOfBounds (S × List ℕ)
write_callback offset size callback buffer =
    if ltb (length buffer) (offset + size) then err write_out_of_bounds else do
      (s, filled) ← callback (take size (drop offset buffer))
      ok (s, take offset buffer ++ (filled ++ drop (offset + size) buffer))

-- The trait `TpmBuffers`: the methods of its request, and access to its response.
pub record TpmBuffers (B : Type 0) : Type 0 where
  pub request_len : B → ℕ
  pub request_read_into : B → ℕ → ℕ → Option (List ℕ)
  pub get_response : B → List ℕ
  pub set_response : B → List ℕ → B

-- The provided methods of the trait `TpmReadBuffer`, over `read_into`.
unfoldable pub read_be_u16 : (ℕ → ℕ → Option (List ℕ)) → ℕ → Option ℕ
read_be_u16 read offset = map_option from_be_bytes (read offset 2)

unfoldable pub read_be_u32 : (ℕ → ℕ → Option (List ℕ)) → ℕ → Option ℕ
read_be_u32 read offset = map_option from_be_bytes (read offset 4)

pub record SeparateBuffers : Type 0 where
  pub reader : List ℕ
  pub writer : List ℕ

abbrev pub separate : TpmBuffers SeparateBuffers
separate = record {
  request_len = λ b. length b.reader;
  request_read_into = λ b offset size. read_into offset size b.reader;
  get_response = λ b. b.writer;
  set_response = λ b w. record { reader = b.reader; writer = w };
}

-- The request is the first `len` bytes of the buffer of the response.
pub record InOutBuffer : Type 0 where
  pub buffer : List ℕ
  pub len : ℕ

unfoldable pub in_out_new : List ℕ → ℕ → InOutBuffer
in_out_new buffer request_size = record { buffer = buffer; len = min request_size (length buffer) }

unfoldable pub in_out_read_into : InOutBuffer → ℕ → ℕ → Option (List ℕ)
in_out_read_into b offset size =
    if ltb b.len (offset + size) then none else read_into offset size b.buffer

abbrev pub in_out : TpmBuffers InOutBuffer
in_out = record {
  request_len = λ b. b.len;
  request_read_into = in_out_read_into;
  get_response = λ b. b.buffer;
  set_response = λ b w. record { buffer = w; len = b.len };
}
