-- ===== src/Server/Returns.antt =====
-- The results of a run of the server (server/src/tpmctx.rs) and the buffer of its response.
use tpm_rs.Prelude.{
  ℕ, ◌+◌, ◌^◌, ◌%◌, ◌≤◌, ◌≡◌, ◌≢◌, ◌∙◌, sym, ap, refl, arith, List, [], ◌++◌, length, take, drop,
  length-append, length-take, length-drop, ltb, ◌==◌, if◌then◌else◌, Bool-cases, inl, inr,
}
use tpm_rs.Outcome.{map_err-eq-ok, Outcome, ok, err, panic, map_err, >>=-eq-ok, >>=-ne-panic}
use tpm_rs.Errors.{TpmRcError, command_size, memory}
use tpm_rs.Marshal.Core.{to_be_bytes}
use tpm_rs.Marshal.Bytes.{length-to_be_bytes}
use tpm_rs.Base.Constants.Commands.{TpmCc, tpm_cc_number}
use tpm_rs.Server.Crypto.{
  from_drbg, ServerError, Drbg, EntropySource, Crypto, try_get_random, reseed_if_required,
}
use tpm_rs.Server.Context.{execute_command_separate}
use tpm_rs.Server.Spec.{number_at, requested, header, Served, reject, reply, answer, serve}
use tpm_rs.Server.Responses.{length-fill_error}
use tpm_rs.Server.Requests.{number_at-cases}
use tpm_rs.Server.Refinement.{execute_command_separate-serve}

number_at-ne-panic : (offset w : ℕ) (request : List ℕ) → number_at offset w request ≢ panic
number_at-ne-panic offset w request h = elim (number_at-cases offset w request) [
  | inl failed ↦ cc
  | inr (n, read) ↦ cc
]

requested-ne-panic : (request : List ℕ) → requested request ≢ panic
unfolding requested
requested-ne-panic request =
    >>=-ne-panic (number_at 0 2 request) _ (number_at-ne-panic 0 2 request) λ tag.
      >>=-ne-panic (number_at 2 4 request) _ (number_at-ne-panic 2 4 request) λ size.
        >>=-ne-panic (if size == length request then number_at 6 4 request else err command_size) _
          (elim (Bool-cases (size == length request)) [
            | inl same ↦ rw same (number_at-ne-panic 6 4 request)
            | inr other ↦ rw other (λ e. cc)
          ])
          λ code. elim (Bool-cases (code == tpm_cc_number TpmCc.get_random)) [
            | inl here ↦ rw here (number_at-ne-panic 10 2 request)
            | inr other ↦ rw other (λ e. cc)
          ]

module _ {D S : Type 0} (rng : Drbg D) (source : EntropySource S) (crypto : Crypto D S) where
  answer-returns :
      (n : ℕ) (response : List ℕ)
      → ((buffer : List ℕ)
          → (r : Crypto D S × List ℕ) × (try_get_random rng source crypto buffer ≡ ok r))
      → (r : ℕ × (Crypto D S × List ℕ)) × (answer rng source crypto response n ≡ ok r)
  unfolding answer reply
  answer-returns n response works = elim (Bool-cases (ltb (length response) (10 + n))) [
    | inl short ↦ rw short (_, refl)
    | inr long ↦ let (r, given) = works (take n (drop 10 response)) in rw (long, given) (_, refl)
  ]

  serve-returns :
      (request response : List ℕ)
      → ((buffer : List ℕ)
          → (r : Crypto D S × List ℕ) × (try_get_random rng source crypto buffer ≡ ok r))
      → (m : Outcome TpmRcError ℕ) → m ≢ panic
      → requested request ≡ m
      → (r : ℕ × (Crypto D S × List ℕ)) × (serve rng source crypto response request ≡ ok r)
  unfolding serve
  serve-returns request response works (ok n) h e = rw (serve, e) (answer-returns n response works)
  serve-returns request response works (err x) h e = rw (serve, e) (_, refl)
  serve-returns request response works panic h e = absurd (h refl)

  -- If the generator succeeds on every buffer, every request, well formed or not, and every
  -- buffer for the response give a result: the run does not panic.
  pub execute_command_separate-returns :
      (request response : List ℕ)
      → ((buffer : List ℕ)
          → (r : Crypto D S × List ℕ) × (try_get_random rng source crypto buffer ≡ ok r))
      → (r : ℕ × (Crypto D S × List ℕ)) × (execute_command_separate rng source crypto request
            response
          ≡ ok r)
  execute_command_separate-returns request response works =
      rw (execute_command_separate-serve rng source crypto request response)
        (serve-returns request response works (requested request) (requested-ne-panic request) refl)

-- The buffer keeps its length, and the size lies within it.
IsBounded : {C : Type 0} → List ℕ → Served C → Type 0
IsBounded response (ok (size, (crypto, w))) = (length w ≡ length response) × (size ≤ length w)
IsBounded response (err e) = ⊥
IsBounded response panic = Unit

reject-IsBounded :
    {C : Type 0} (crypto : C) (response : List ℕ) (e : TpmRcError)
    → IsBounded response (reject crypto response e)
unfolding IsBounded
reject-IsBounded crypto response e =
    let (kept, within) = length-fill_error e response in (kept, omega arith)

length-header : (size : ℕ) → length (header size) ≡ 10
length-header size =
    let x = to_be_bytes 2 0x8001 in
    let y = to_be_bytes 4 (size % 2 ^ 32) in
    let z = to_be_bytes 4 0 in
    let lx : length x ≡ 2 = length-to_be_bytes 2 0x8001 in
    let ly : length y ≡ 4 = length-to_be_bytes 4 (size % 2 ^ 32) in
    let lz : length z ≡ 4 = length-to_be_bytes 4 0 in
    omega (arith, length-append x (y ++ z), length-append y z)

reply-IsBounded :
    {C : Type 0} (n : ℕ) (response : List ℕ) (m : Outcome ServerError (C × List ℕ))
    → 10 + n ≤ length response
    → ((c : C) (filled : List ℕ) → m ≡ ok (c, filled) → length filled ≡ n)
    → IsBounded response (reply n response m)
unfolding IsBounded reply
reply-IsBounded n response (ok (c, filled)) room len =
    let kept : length (header (10 + n) ++ (filled ++ drop (10 + n) response)) ≡ length response =
      omega (
        arith,
        len c filled refl,
        length-drop (10 + n) response,
        length-append filled (drop (10 + n) response),
        length-header (10 + n),
        length-append (header (10 + n)) (filled ++ drop (10 + n) response),
      ) in
    (kept, omega arith)
reply-IsBounded n response (err e) room len = tt
reply-IsBounded n response panic room len = tt

module _ {D S : Type 0} (rng : Drbg D) (source : EntropySource S) (crypto : Crypto D S)
    (keeps : (d d' : D) (input buffer filled : List ℕ)
      → rng.fill_bytes d input buffer ≡ ok (d', filled)
      → length filled ≡ length buffer) where
  length-try_get_random :
      (buffer filled : List ℕ) (crypto' : Crypto D S)
      → try_get_random rng source crypto buffer ≡ ok (crypto', filled)
      → length filled ≡ length buffer
  unfolding try_get_random
  length-try_get_random buffer filled crypto' e =
      let (c, seeded, more) =
        >>=-eq-ok
          (reseed_if_required rng source (rng.requires_reseeding crypto.drbg).0
            (rng.requires_reseeding crypto.drbg).1 crypto.entropy)
          _ e in
      let ((d', out), given, done) =
        >>=-eq-ok (map_err from_drbg (rng.fill_bytes c.drbg [] buffer)) _ more in
      let out_eq : out ≡ filled = cc done in
      sym (ap length out_eq) ∙ keeps c.drbg d' [] buffer out (map_err-eq-ok from_drbg _ _ given)

  answer-IsBounded :
      (n : ℕ) (response : List ℕ) → IsBounded response (answer rng source crypto response n)
  unfolding answer
  answer-IsBounded n response = elim (Bool-cases (ltb (length response) (10 + n))) [
    | inl short ↦ rw short (reject-IsBounded crypto response memory)
    | inr long ↦
        let room : 10 + n ≤ length response = ground arith in
        let behind = length-drop 10 response in
        rw long (
          reply-IsBounded n response (try_get_random rng source crypto (take n (drop 10 response)))
            room
            λ c filled given.
              length-try_get_random (take n (drop 10 response)) filled c given
              ∙ length-take n (drop 10 response) (omega arith))
  ]

  serve-IsBounded :
      (request response : List ℕ) (m : Outcome TpmRcError ℕ)
      → requested request ≡ m
      → IsBounded response (serve rng source crypto response request)
  unfolding serve
  serve-IsBounded request response (ok n) e = rw (serve, e) (answer-IsBounded n response)
  serve-IsBounded request response (err x) e = rw (serve, e) (reject-IsBounded crypto response x)
  serve-IsBounded request response panic e = rw (serve, e) (unfold IsBounded in tt)

  -- If the generator keeps the length of the slice that it fills, a run that returns keeps the
  -- length of the buffer of the response, and the size that it returns is at most that length.
  pub execute_command_separate-bounded :
      (request response w : List ℕ) (size : ℕ) (crypto' : Crypto D S)
      → execute_command_separate rng source crypto request response ≡ ok (size, (crypto', w))
      → (length w ≡ length response) × (size ≤ length w)
  execute_command_separate-bounded request response w size crypto' e =
      let served = sym (execute_command_separate-serve rng source crypto request response) ∙ e in
      unfold IsBounded in rw served at (serve-IsBounded request response (requested request) refl)
