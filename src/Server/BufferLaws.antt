-- ===== src/Server/BufferLaws.antt =====
-- What the command loop relies on of its buffers (server/src/platform/buffer.rs, server/src/buffers).
use tpm_rs.Prelude.{
  ℕ, ◌+◌, ◌≡◌, ◌∙◌, sym, ap, refl, arith, min, List, ◌++◌, some, length, take, drop, length-append,
  length-take-min, take-drop-take, take-append, drop-append, drop-drop, ltb, Bool-cases, le→ltb,
  inl, inr,
}
use tpm_rs.Server.Buffer.{
  TpmBuffers, read_into, write, separate, in_out, in_out_new, in_out_read_into,
}

-- Writing `bytes` over the middle of a buffer.
pub write-over :
    (offset : ℕ) (bytes before middle after : List ℕ)
    → offset ≡ length before
    → length bytes ≡ length middle
    → write offset bytes (before ++ (middle ++ after)) ≡ some (before ++ (bytes ++ after))
unfolding write
write-over offset bytes before middle after e e' =
    let len = length-append before (middle ++ after) in
    let len' = length-append middle after in
    let skip : drop (length before + length middle) (before ++ (middle ++ after)) ≡ after =
      sym (drop-drop (length before) (length middle) (before ++ (middle ++ after)))
      ∙ ap (drop (length middle)) (drop-append before (middle ++ after))
      ∙ drop-append middle after in
    rw (
      e,
      e',
      le→ltb (length (before ++ (middle ++ after))) (length before + length middle) (omega arith),
      take-append before (middle ++ after),
      skip,
    )

-- Buffers whose request reads like the list `request`, and whose response is `response`.
pub record Holds {B : Type 0} (ops : TpmBuffers B) (b : B) (request response : List ℕ)
    : Type 0 where
  pub len_eq : ops.request_len b ≡ length request
  pub read_eq : (o n : ℕ) → ops.request_read_into b o n ≡ read_into o n request
  pub response_eq : ops.get_response b ≡ response
  pub response_set : (b' : B) (w : List ℕ) → ops.get_response (ops.set_response b' w) ≡ w

pub separate-Holds :
    (request response : List ℕ)
    → Holds separate (record { reader = request; writer = response }) request response
separate-Holds request response = record {
  len_eq = refl;
  read_eq = λ o n. refl;
  response_eq = refl;
  response_set = λ b' w. refl;
}

in_out-read :
    (buffer : List ℕ) (k o n : ℕ)
    → in_out_read_into (in_out_new buffer k) o n ≡ read_into o n (take k buffer)
unfolding in_out_read_into in_out_new read_into
in_out-read buffer k o n = elim (Bool-cases (ltb (min k (length buffer)) (o + n))) [
  | inl short ↦ rw (length-take-min k buffer, short)
  | inr long ↦
      rw
        (
          length-take-min k buffer,
          long,
          le→ltb (length buffer) (o + n) (ground arith),
          take-drop-take n o k buffer (ground arith),
        )
        refl
]

-- The request of an in-place buffer is the front of the buffer that its size names.
pub in_out-Holds :
    (buffer : List ℕ) (k : ℕ) → Holds in_out (in_out_new buffer k) (take k buffer) buffer
unfolding in_out_new
in_out-Holds buffer k = record {
  len_eq = sym (length-take-min k buffer);
  read_eq = in_out-read buffer k;
  response_eq = refl;
  response_set = λ b' w. refl;
}
