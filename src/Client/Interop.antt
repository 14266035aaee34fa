-- ===== src/Client/Interop.antt =====
-- The client (client/src/lib.rs) against the server (server/src/tpmctx.rs): `TPM2_GetRandom` without
-- sessions, from the request to the response.
pub mod Response
use tpm_rs.Prelude.{
  ℕ, ◌+◌, ◌-◌, ◌%◌, ◌^◌, ◌≤◌, ◌<◌, ◌≡◌, ◌∙◌, ap, refl, sym, arith, none, List, [], ◌++◌, length,
  take, drop, replicate, length-replicate, length-append, length-take, ◌==◌, if◌then◌else◌,
  Bool-cases, inl, inr, append-nil, append_assoc, take-append, le→ltb, All,
}
use tpm_rs.Outcome.{Outcome, ok, err, panic, map_err, >>=-eq-ok}
use tpm_rs.Errors.{TpmRcError, TssError, from_rc, tpm_unexpected}
use tpm_rs.Marshal.Core.{IsByte, to_be_bytes}
use tpm_rs.Marshal.Bytes.{length-to_be_bytes}
use tpm_rs.Marshal.Lawful.{unit-Lawful, unit_format}
use tpm_rs.Base.Commands.Management.{
  GetRandomCmd, GetRandomResp, get_random_cmd_format, get_random_cmd-Lawful, get_random_resp,
  get_random_resp_format, get_random_resp-Lawful,
}
use tpm_rs.Tpm2b.Simple.{Tpm2b}
use tpm_rs.Tpm2b.SimpleLaws.{IsSized}
use tpm_rs.Base.Buffers.{tpm2b_digest_capacity}
use tpm_rs.Server.Crypto.{Drbg, EntropySource, Crypto, try_get_random}
use tpm_rs.Server.Context.{execute_command_separate}
use tpm_rs.Server.Spec.{header}
use tpm_rs.Server.Requests.{request_of, get_random_request}
use tpm_rs.Server.Responses.{get_random-answered}
use tpm_rs.Client.Session.{no_session}
use tpm_rs.Client.Areas.{area_0}
use tpm_rs.Client.Command.{build_command}
use tpm_rs.Client.Emit.Laws.{filled}
use tpm_rs.Client.Command.Layout.{build_command-request_of}
use tpm_rs.Client.Response.{parse, read_optional, read_response_sessions, read_body, read_response}
use tpm_rs.Client.Response.Laws.{read_response-sized}
use tpm_rs.Client.Interop.Response.{read_body-filled}
use tpm_rs.Client.Run.{Tpm, after_transact, run_command_with_handles, run_command}
use tpm_rs.Client.Run.Laws.{run_command_with_handles-sent}
use tpm_rs.Client.Instances.{get_random_command}

-- A command as the client sends it.
build-get_random :
    (n : ℕ) (buffer : List ℕ)
    → n < 2 ^ 16
    → 12 ≤ length buffer
    → length buffer < 2 ^ 32
    → build_command no_session no_session no_session area_0 get_random_command
        (record { bytes_requested = n })
        tt
        tt
        buffer
      ≡ filled (get_random_request 0x8001 n []) buffer
unfolding get_random_cmd_format
build-get_random n buffer n_small room small =
    let cmd : GetRandomCmd = record { bytes_requested = n } in
    let built =
      build_command-request_of no_session no_session no_session area_0 get_random_command
        get_random_cmd_format unit_format get_random_cmd-Lawful unit-Lawful cmd tt tt none none none
        (tt, tt, tt) (omega (arith, n_small)) tt (omega arith) buffer small
        (omega (arith, length-to_be_bytes 2 n, room)) in
    rw (append-nil (to_be_bytes 2 n)) (rw (length-to_be_bytes 2 n) at built)

-- What the server returned, as the result of a transaction; the server always returns.
abbrev pub relay : {S : Type 0} → S → Outcome ⊥ (ℕ × (S × List ℕ)) → Outcome TssError (List ℕ) × S
relay s (ok (size, (s', w))) = (ok w, s')
relay s (err e) = (panic, s)
relay s panic = (panic, s)

-- The server of the repository, as what carries the bytes of the client.
abbrev pub service : {D S : Type 0} → Drbg D → EntropySource S → Tpm (Crypto D S)
service rng source = record {
  transact = λ crypto command response.
      relay crypto (execute_command_separate rng source crypto command response);
}

abbrev pub buffer_4096 : List ℕ
buffer_4096 = replicate 4096 0

module _ {D S : Type 0} (rng : Drbg D) (source : EntropySource S) (crypto crypto' : Crypto D S)
    (n : ℕ) (filled' : List ℕ) where
  -- What the server leaves in the buffer of the response.
  abbrev pub response_to : List ℕ
  response_to = header (10 + n) ++ (filled' ++ drop (10 + n) buffer_4096)

  pub run-get_random :
      n ≤ 4086
      → try_get_random rng source crypto (take n (drop 10 buffer_4096)) ≡ ok (crypto', filled')
      → run_command_with_handles
          (service rng source)
          no_session
          no_session
          no_session
          area_0
          get_random_command
          (record { bytes_requested = n })
          tt
          tt
          crypto
        ≡ (
          read_response no_session no_session no_session area_0 get_random_command tt response_to,
          crypto',
        )
  unfolding after_transact
  run-get_random room given =
      let len : length buffer_4096 ≡ 4096 = length-replicate {A = ℕ} 4096 0 in
      let cmd : GetRandomCmd = record { bytes_requested = n } in
      let request : List ℕ = get_random_request 0x8001 n [] in
      let built : build_command no_session no_session no_session area_0 get_random_command cmd tt tt
            buffer_4096
          ≡ filled request buffer_4096 =
        build-get_random n buffer_4096 (omega (arith, room)) (omega (arith, len))
          (omega (arith, len)) in
      let answered : execute_command_separate rng source crypto request buffer_4096
          ≡ ok (10 + n, (crypto', response_to)) =
        get_random-answered rng source crypto 0x8001 n [] buffer_4096 filled' crypto' (omega arith)
          (omega (arith, room)) (omega arith) (omega (arith, len, room)) given in
      run_command_with_handles-sent (service rng source) no_session no_session no_session area_0
        get_random_command cmd tt tt crypto request built
      ∙ ap
          (λ o.
            after_transact (service rng source) no_session no_session no_session area_0
              get_random_command tt (relay crypto o))
          answered

  abbrev pub tail : List ℕ
  tail = drop (10 + n) buffer_4096

  -- The response has the layout of a request.
  pub response_to-request_of :
      n ≤ 4086 → response_to ≡ request_of 0x8001 (10 + n) 0 (filled' ++ tail)
  unfolding request_of
  response_to-request_of room =
      let size_eq : (10 + n) % 2 ^ 32 ≡ 10 + n = omega (arith, room) in
      rw
        (
          size_eq,
          append_assoc (to_be_bytes 2 0x8001) (to_be_bytes 4 (10 + n) ++ to_be_bytes 4 0)
              (filled' ++ tail),
          append_assoc (to_be_bytes 4 (10 + n)) (to_be_bytes 4 0) (filled' ++ tail),
        )
        refl

  -- What the client accepts.
  accepted_response :
      (r : GetRandomResp)
      → length filled' ≡ n
      → n ≤ 4086
      → All IsByte filled'
      → read_response no_session no_session no_session area_0 get_random_command tt response_to
        ≡ ok (r, tt)
      → r.random_bytes.size + 2 ≡ n
  accepted_response r len room bytes accepted =
      let front : take (10 + n - 10) (filled' ++ tail) ≡ filled' =
        ap (λ (k : ℕ). take k (filled' ++ tail))
          (let e : 10 + n - 10 ≡ length filled' = omega (arith, len) in e)
        ∙ take-append filled' tail in
      let read =
        read_response-sized no_session no_session no_session area_0 get_random_command tt 0x8001
          (10 + n) (filled' ++ tail) (omega arith) (omega (arith, room)) in
      let whole : length (filled' ++ tail) ≡ n + length tail =
        omega (arith, length-append filled' tail, len) in
      let body =
        rw
          (
            response_to-request_of room,
            read,
            le→ltb (10 + length (filled' ++ tail)) (10 + n) (omega (arith, whole)),
            le→ltb (10 + n) 10 (omega arith),
            front,
          )
          at accepted in
      read_body-filled (10 + n) filled' r bytes body ∙ len

  -- If the client runs GetRandom for n bytes, n at most 4086, against execute_command_separate,
  -- the generator gives n bytes, and the client accepts the response, then the client got n - 2
  -- random bytes: it reads the first two of them as a size.
  pub get_random-two_less :
      (r : GetRandomResp) (end : Crypto D S)
      → n ≤ 4086
      → try_get_random rng source crypto (take n (drop 10 buffer_4096)) ≡ ok (crypto', filled')
      → length filled' ≡ n
      → All IsByte filled'
      → run_command (service rng source) get_random_command (record { bytes_requested = n }) crypto
        ≡ (ok r, end)
      → r.random_bytes.size + 2 ≡ n
  unfolding run_command
  get_random-two_less r end room given len bytes done =
      let run = rw (run_command, run-get_random room given) at done in
      let ((resp, k), read, same) =
        >>=-eq-ok
          (read_response no_session no_session no_session area_0 get_random_command tt response_to)
          _ (ap (λ (x : Outcome TssError GetRandomResp × Crypto D S). x.0) run) in
      let equal : resp ≡ r = cc same in
      ap (λ (x : GetRandomResp). x.random_bytes.size + 2) (sym equal)
      ∙ accepted_response resp len room bytes read
