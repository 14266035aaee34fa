-- ===== src/Server/Refinement.antt =====
-- The command loop (server/src/tpmctx.rs) against Server/Spec.antt.
use tpm_rs.Prelude.{
  ℕ, ◌+◌, ◌%◌, ◌^◌, ◌≤◌, ◌≡◌, ◌∙◌, sym, refl, arith, List, [], ◌++◌, Option, none, some, length,
  take, drop, length-append, length-take, length-drop, take-add, drop-drop, append_assoc, ltb, ◌==◌,
  if◌then◌else◌, Bool-cases, inl, inr,
}
use tpm_rs.Outcome.{Outcome, ok, err, panic, ◌>>=◌, map_err, >>=-assoc}
use tpm_rs.Base.Constants.Commands.{TpmCc, tpm_cc_number}
use tpm_rs.Errors.{TpmRcError, command_size, command_code, memory}
use tpm_rs.Marshal.Core.{to_be_bytes, from_be_bytes}
use tpm_rs.Marshal.Bytes.{length-to_be_bytes}
use tpm_rs.Derive.Fields.{continue}
use tpm_rs.Server.Buffer.{
  TpmBuffers, WriteOutOfBounds, write_callback, read_be_u16, read_be_u32, read_into, ok_or,
  map_option, separate, in_out, in_out_new,
}
use tpm_rs.Server.BufferLaws.{Holds, write-over, separate-Holds, in_out-Holds}
use tpm_rs.Server.Cursor.{
  RequestResponseCursor, cursor_new, cursor_read_be_u16, cursor_read_be_u32, cursor_write_callback,
}
use tpm_rs.Server.Crypto.{ServerError, Drbg, EntropySource, Crypto, try_get_random}
use tpm_rs.Server.Context.{
  or_failure_mode, write_or_memory, write_header, get_random, dispatch, handle_request, respond,
  execute_command, finish, execute_command_separate, execute_command_in_place,
}
use tpm_rs.Server.Spec.{number_at, requested, header, reject, reply, answer, serve}

write_or_memory-over :
    (offset : ℕ) (bytes before middle after : List ℕ)
    → offset ≡ length before
    → length bytes ≡ length middle
    → write_or_memory offset bytes (before ++ (middle ++ after))
      ≡ (ok 0, before ++ (bytes ++ after))
unfolding write_or_memory
write_or_memory-over offset bytes before middle after e e' =
    rw (write_or_memory, write-over offset bytes before middle after e e') refl

-- The header goes over the ten bytes in front of the body.
write_header-over :
    (size : ℕ) (a b c rest : List ℕ)
    → length a ≡ 2
    → length b ≡ 4
    → length c ≡ 4
    → write_header size (a ++ (b ++ (c ++ rest))) ≡ (ok size, header size ++ rest)
unfolding write_header continue
write_header-over size a b c rest ha hb hc =
    let x = to_be_bytes 2 0x8001 in
    let y = to_be_bytes 4 (size % 2 ^ 32) in
    let z = to_be_bytes 4 0 in
    let lx : length x ≡ 2 = length-to_be_bytes 2 0x8001 in
    let ly : length y ≡ 4 = length-to_be_bytes 4 (size % 2 ^ 32) in
    let lz : length z ≡ 4 = length-to_be_bytes 4 0 in
    rw
      (
        write_or_memory-over 0 x [] a (b ++ (c ++ rest)) refl (omega arith),
        write_or_memory-over 2 y x b (c ++ rest) (omega arith) (omega arith),
        sym (append_assoc x y (c ++ rest)),
        write_or_memory-over 6 z (x ++ y) c rest (omega (arith, length-append x y)) (omega arith),
      )
      (simp append_assoc)

write_header-response :
    (size : ℕ) (response rest : List ℕ)
    → 10 ≤ length response
    → write_header size (take 10 response ++ rest) ≡ (ok size, header size ++ rest)
write_header-response size response rest h =
    let len = length-drop 2 response in
    let len' = length-drop 6 response in
    rw
      (
        take-add 2 8 response,
        take-add 4 4 (drop 2 response),
        drop-drop 2 4 response,
        append_assoc (take 2 response) (take 4 (drop 2 response) ++ take 4 (drop 6 response)) rest,
        append_assoc (take 4 (drop 2 response)) (take 4 (drop 6 response)) rest,
      )
      (write_header-over size (take 2 response) (take 4 (drop 2 response))
        (take 4 (drop 6 response)) rest (length-take 2 response (omega arith))
        (length-take 4 (drop 2 response) (omega arith))
        (length-take 4 (drop 6 response) (omega arith)))

bind-option :
    {A C : Type 0} (m : Option (List ℕ)) (adv : ℕ → C) (f : C → Outcome TpmRcError A)
    (k : ℕ → Outcome TpmRcError A)
    → ((n : ℕ) → f (adv n) ≡ k n)
    → (ok_or (map_option adv (map_option from_be_bytes m)) command_size >>= f)
      ≡ (ok_or (map_option from_be_bytes m) command_size >>= k)
bind-option none adv f k e = refl
bind-option (some x) adv f k e = e (from_be_bytes x)

module _ {D S B : Type 0} (rng : Drbg D) (source : EntropySource S) (ops : TpmBuffers B) where
  -- The handler behind the request's fields.
  handled : Crypto D S → B → ℕ → Outcome TpmRcError (Crypto D S × RequestResponseCursor B)
  handled crypto b n =
      map_err (λ e. memory)
        (cursor_write_callback ops
          (record { buffers = b; request_offset = 12; response_offset = 10 }) n
          λ buffer. or_failure_mode (try_get_random rng source crypto buffer))

  module _ (b : B) {request response : List ℕ} (h : Holds ops b request response) where
    at : ℕ → RequestResponseCursor B
    at o = record { buffers = b; request_offset = o; response_offset = 10 }

    read_16 :
        {A : Type 0} (o : ℕ) (f : ℕ × RequestResponseCursor B → Outcome TpmRcError A)
        (k : ℕ → Outcome TpmRcError A)
        → ((n : ℕ) → f (n, at (o + 2)) ≡ k n)
        → (ok_or (cursor_read_be_u16 ops (at o)) command_size >>= f) ≡ (number_at o 2 request >>= k)
    unfolding at cursor_read_be_u16 read_be_u16 number_at
    read_16 o f k e = rw (h.read_eq o 2) (bind-option (read_into o 2 request) _ f k e)

    read_16_then :
        {A : Type 0} (o : ℕ) (f : ℕ × RequestResponseCursor B → Outcome TpmRcError A)
        (k : ℕ → Outcome TpmRcError ℕ) (g : ℕ → Outcome TpmRcError A)
        → ((n : ℕ) → f (n, at (o + 2)) ≡ (k n >>= g))
        → (ok_or (cursor_read_be_u16 ops (at o)) command_size >>= f)
          ≡ ((number_at o 2 request >>= k) >>= g)
    read_16_then o f k g e =
        read_16 o f (λ n. k n >>= g) e ∙ sym (>>=-assoc (number_at o 2 request) k g)

    read_32_then :
        {A : Type 0} (o : ℕ) (f : ℕ × RequestResponseCursor B → Outcome TpmRcError A)
        (k : ℕ → Outcome TpmRcError ℕ) (g : ℕ → Outcome TpmRcError A)
        → ((n : ℕ) → f (n, at (o + 4)) ≡ (k n >>= g))
        → (ok_or (cursor_read_be_u32 ops (at o)) command_size >>= f)
          ≡ ((number_at o 4 request >>= k) >>= g)
    unfolding at cursor_read_be_u32 read_be_u32 number_at
    read_32_then o f k g e = rw (h.read_eq o 4) (
        bind-option (read_into o 4 request) _ f (λ n. k n >>= g) e
        ∙ sym
            (>>=-assoc (ok_or (map_option from_be_bytes (read_into o 4 request)) command_size) k g))

    dispatch-requested :
        (crypto : Crypto D S) (code : ℕ)
        → dispatch rng source ops code crypto (at 10) ≡ (
            (if code == tpm_cc_number TpmCc.get_random
              then number_at 10 2 request
              else err command_code)
            >>= handled crypto b)
    unfolding dispatch get_random at handled
    dispatch-requested crypto code = elim (Bool-cases (code == tpm_cc_number TpmCc.get_random)) [
      | inl here ↦ rw here (read_16 10 _ (handled crypto b) λ n. refl)
      | inr other ↦ rw other refl
    ]

    handle_request-requested :
        (crypto : Crypto D S)
        → handle_request rng source ops crypto b ≡ (requested request >>= handled crypto b)
    unfolding handle_request requested cursor_new at
    handle_request-requested crypto = read_16_then 0 _ _ (handled crypto b) λ tag.
        read_32_then 2 _ _ (handled crypto b) λ size. elim (Bool-cases (size == length request)) [
          | inl same ↦
              rw (h.len_eq, same)
                (read_32_then 6 _ _ (handled crypto b) (dispatch-requested crypto))
          | inr other ↦ rw (h.len_eq, other) refl
        ]

    abbrev produced :
        ℕ
        → Outcome ServerError (Crypto D S × List ℕ)
        → Outcome WriteOutOfBounds (Crypto D S × List ℕ)
    produced n m = do
      (s, filled) ← or_failure_mode m
      ok (s, take 10 response ++ (filled ++ drop (10 + n) response))

    abbrev behind :
        ℕ
        → Outcome WriteOutOfBounds (Crypto D S × List ℕ)
        → Outcome TpmRcError (Crypto D S × RequestResponseCursor B)
    behind n w =
        map_err (λ e. memory)
          (do
            (s, x) ← w
            ok (
              s,
              record {
                buffers = ops.set_response b x;
                request_offset = 12;
                response_offset = 10 + n;
              },
            ))

    -- What the generator gave goes behind the header.
    finish-reply :
        (crypto : Crypto D S) (n : ℕ) (m : Outcome ServerError (Crypto D S × List ℕ))
        → 10 ≤ length response
        → finish rng source ops (respond rng source ops crypto b (behind n (produced n m)))
          ≡ reply n response m
    unfolding finish respond reply or_failure_mode
    finish-reply crypto n (ok (s, filled)) fits =
        rw
          (
            h.response_set,
            write_header-response (10 + n) response (filled ++ drop (10 + n) response) fits,
          )
          (rw h.response_set refl)
    finish-reply crypto n (err e) fits = refl
    finish-reply crypto n panic fits = refl

    finish-answer :
        (crypto : Crypto D S) (n : ℕ)
        → finish rng source ops (respond rng source ops crypto b (handled crypto b n))
          ≡ answer rng source crypto response n
    unfolding finish respond handled answer cursor_write_callback write_callback
    finish-answer crypto n = elim (Bool-cases (ltb (length response) (10 + n))) [
      | inl short ↦ rw (h.response_eq, short, h.response_eq) refl
      | inr long ↦
          rw (h.response_eq, long)
            (finish-reply crypto n (try_get_random rng source crypto (take n (drop 10 response)))
              (ground arith))
    ]

    finish-requested :
        (crypto : Crypto D S) (m : Outcome TpmRcError ℕ)
        → finish rng source ops (respond rng source ops crypto b (m >>= handled crypto b))
          ≡ elim m [
            | ok n ↦ answer rng source crypto response n
            | err e ↦ reject crypto response e
            | panic ↦ panic
          ]
    finish-requested crypto (ok n) = finish-answer crypto n
    finish-requested crypto (err e) = unfold finish respond in rw h.response_eq refl
    finish-requested crypto panic = unfold finish respond in refl

    execute_command-serve :
        (crypto : Crypto D S)
        → finish rng source ops (execute_command rng source ops crypto b)
          ≡ serve rng source crypto response request
    unfolding execute_command serve
    execute_command-serve crypto =
        rw (handle_request-requested crypto) (finish-requested crypto (requested request))

module _ {D S : Type 0} (rng : Drbg D) (source : EntropySource S) where
  -- Whatever the generator, the state, the request and the buffer of the response are, a run of
  -- execute_command_separate comes to what serve describes: the refusal of the request, or the
  -- answer to a request for random bytes.
  pub execute_command_separate-serve :
      (crypto : Crypto D S) (request response : List ℕ)
      → execute_command_separate rng source crypto request response
        ≡ serve rng source crypto response request
  unfolding execute_command_separate
  execute_command_separate-serve crypto request response =
      execute_command-serve rng source separate (record { reader = request; writer = response })
        (separate-Holds request response) crypto

  -- Running a request in place in a buffer, with a size for the request, gives the same result,
  -- state and buffer as running the first bytes of the buffer, up to that size, as a separate
  -- request, whatever the size is.
  pub execute_command_in_place-separate :
      (crypto : Crypto D S) (buffer : List ℕ) (request_size : ℕ)
      → execute_command_in_place rng source crypto buffer request_size
        ≡ execute_command_separate rng source crypto (take request_size buffer) buffer
  unfolding execute_command_in_place
  execute_command_in_place-separate crypto buffer request_size =
      execute_command-serve rng source in_out (in_out_new buffer request_size)
        (in_out-Holds buffer request_size) crypto
      ∙ sym (execute_command_separate-serve crypto (take request_size buffer) buffer)
