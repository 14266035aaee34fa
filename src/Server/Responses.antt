-- ===== src/Server/Responses.antt =====
-- What the server (server/src/tpmctx.rs, server/src/handler/random.rs) answers to which request.
use tpm_rs.Prelude.{
  ℕ, ◌+◌, ◌^◌, ◌≤◌, ◌<◌, ◌≡◌, ◌≢◌, ◌∙◌, refl, arith, List, ◌++◌, length, take, drop, length-append,
  length-take, length-drop, ltb, ==_refl, ne→==, le→ltb, lt→ltb, Bool-cases, inl, inr,
}
use tpm_rs.Outcome.{ok}
use tpm_rs.Errors.{TpmRcError, command_size, command_code, memory}
use tpm_rs.Marshal.Core.{to_be_bytes}
use tpm_rs.Marshal.Bytes.{length-to_be_bytes}
use tpm_rs.Base.Constants.Commands.{TpmCc, tpm_cc_number}
use tpm_rs.Server.Buffer.{write}
use tpm_rs.Server.Crypto.{Drbg, EntropySource, Crypto, try_get_random}
use tpm_rs.Server.Context.{fill_error, execute_command_separate}
use tpm_rs.Server.Spec.{header, reject, reply, answer, serve}
use tpm_rs.Server.Requests.{
  request_of, get_random_request, requested_truncated, requested-get_random, requested-request_of,
}
use tpm_rs.Server.Refinement.{execute_command_separate-serve}

module _ {D S : Type 0} (rng : Drbg D) (source : EntropySource S) (crypto : Crypto D S) where
  -- A request for n random bytes, with a tag and n of 16 bits, a size that is that of the
  -- request and of 32 bits, is answered with 10 + n bytes if the response has the room and the
  -- generator succeeds: the tag 0x8001, the size 10 + n, the code 0, then the bytes of the
  -- generator; what stands behind them stays.
  pub get_random-answered :
      (tag n : ℕ) (rest response filled : List ℕ) (crypto' : Crypto D S)
      → tag < 2 ^ 16
      → n < 2 ^ 16
      → 12 + length rest < 2 ^ 32
      → 10 + n ≤ length response
      → try_get_random rng source crypto (take n (drop 10 response)) ≡ ok (crypto', filled)
      → execute_command_separate rng source crypto (get_random_request tag n rest) response
        ≡ ok (10 + n, (crypto', header (10 + n) ++ (filled ++ drop (10 + n) response)))
  unfolding serve answer reply
  get_random-answered tag n rest response filled crypto' tag_small n_small small room given =
      execute_command_separate-serve rng source crypto (get_random_request tag n rest) response
      ∙ rw
          (
            serve,
            requested-get_random tag n rest tag_small n_small small,
            answer,
            le→ltb (length response) (10 + n) room,
            given,
          )
          refl

  -- A well formed request for n random bytes whose response has less than 10 + n bytes is
  -- refused with Memory, and the state does not change.
  pub get_random-no_room :
      (tag n : ℕ) (rest response : List ℕ)
      → tag < 2 ^ 16
      → n < 2 ^ 16
      → 12 + length rest < 2 ^ 32
      → length response < 10 + n
      → execute_command_separate rng source crypto (get_random_request tag n rest) response
        ≡ reject crypto response memory
  unfolding serve answer
  get_random-no_room tag n rest response tag_small n_small small room =
      execute_command_separate-serve rng source crypto (get_random_request tag n rest) response
      ∙ rw
          (
            serve,
            requested-get_random tag n rest tag_small n_small small,
            lt→ltb (length response) (10 + n) room,
          )
          refl

  -- A request of less than ten bytes is refused with CommandSize, and the state does not
  -- change.
  pub truncated-rejected :
      (request response : List ℕ)
      → length request < 10
      → execute_command_separate rng source crypto request response
        ≡ reject crypto response command_size
  unfolding serve
  truncated-rejected request response h =
      execute_command_separate-serve rng source crypto request response
      ∙ rw (serve, requested_truncated request h) refl

  -- A request whose size field differs from its length, with fields of their widths, is refused
  -- with CommandSize, and the state does not change.
  pub wrong_size-rejected :
      (tag size code : ℕ) (parameters response : List ℕ)
      → tag < 2 ^ 16
      → size < 2 ^ 32
      → code < 2 ^ 32
      → size ≢ 10 + length parameters
      → execute_command_separate rng source crypto (request_of tag size code parameters) response
        ≡ reject crypto response command_size
  unfolding serve
  wrong_size-rejected tag size code parameters response a b c h =
      execute_command_separate-serve rng source crypto (request_of tag size code parameters)
        response
      ∙ rw
          (
            serve,
            requested-request_of tag size code parameters a b c,
            ne→== size (10 + length parameters) h,
          )
          refl

  -- A request of the right size with another code than that of GetRandom, with fields of their
  -- widths, is refused with CommandCode, and the state does not change.
  pub other_command-rejected :
      (tag code : ℕ) (parameters response : List ℕ)
      → tag < 2 ^ 16
      → code < 2 ^ 32
      → 10 + length parameters < 2 ^ 32
      → code ≢ tpm_cc_number TpmCc.get_random
      → execute_command_separate rng source crypto
          (request_of tag (10 + length parameters) code parameters)
          response
        ≡ reject crypto response command_code
  unfolding serve
  other_command-rejected tag code parameters response a c small h =
      execute_command_separate-serve rng source crypto
        (request_of tag (10 + length parameters) code parameters) response
      ∙ rw
          (
            serve,
            requested-request_of tag (10 + length parameters) code parameters a small c,
            ==_refl (10 + length parameters),
            ne→== code (tpm_cc_number TpmCc.get_random) h,
          )
          refl

-- In a buffer of at least ten bytes fill_error puts the code of the error, in four bytes, at
-- offset 6, leaves the rest as it was, the tag and the size included, and returns 10.
pub fill_error-fits :
    (error : TpmRcError) (response : List ℕ)
    → 10 ≤ length response
    → fill_error error response
      ≡ (10, take 6 response ++ (to_be_bytes 4 error.code ++ drop 10 response))
unfolding fill_error write
fill_error-fits error response h =
    rw (fill_error, write, length-to_be_bytes 4 error.code, le→ltb (length response) 10 h) refl

pub fill_error-short :
    (error : TpmRcError) (response : List ℕ)
    → length response < 10
    → fill_error error response ≡ (0, response)
unfolding fill_error write
fill_error-short error response h =
    rw (fill_error, write, length-to_be_bytes 4 error.code, lt→ltb (length response) 10 h) refl

pub length-fill_error :
    (error : TpmRcError) (response : List ℕ)
    → (length (fill_error error response).1 ≡ length response)
      × ((fill_error error response).0 ≤ length response)
length-fill_error error response = elim (Bool-cases (ltb (length response) 10)) [
  | inl short ↦ rw (fill_error-short error response (ground arith)) (refl, omega arith)
  | inr long ↦
      let six = length-take 6 response (ground arith) in
      let long' : 10 ≤ length response = ground arith in
      rw (fill_error-fits error response long') (
        omega (
          arith,
          length-append (take 6 response) (to_be_bytes 4 error.code ++ drop 10 response),
          length-append (to_be_bytes 4 error.code) (drop 10 response),
          length-to_be_bytes 4 error.code,
          length-drop 10 response,
        ),
        long',
      )
]
