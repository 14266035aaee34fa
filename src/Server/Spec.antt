-- ===== src/Server/Spec.antt =====
-- What a run of the server (server/src/tpmctx.rs) comes to, on the bytes of a request and of the
-- buffer for the response: a description with no cursor and no buffers shared.
use tpm_rs.Prelude.{ℕ, ◌+◌, ◌%◌, ◌^◌, List, ◌++◌, length, take, drop, ltb, ◌==◌, if◌then◌else◌}
use tpm_rs.Outcome.{Outcome, ok, err, panic, ◌>>=◌}
use tpm_rs.Errors.{TpmRcError, command_size, command_code, memory}
use tpm_rs.Marshal.Core.{from_be_bytes, to_be_bytes}
use tpm_rs.Base.Constants.Commands.{TpmCc, tpm_cc_number}
use tpm_rs.Server.Buffer.{map_option, ok_or, read_into}
use tpm_rs.Server.Crypto.{ServerError, Drbg, EntropySource, Crypto, try_get_random}
use tpm_rs.Server.Context.{fill_error}

-- The number of `w` bytes at an offset of the request.
unfoldable pub number_at : ℕ → ℕ → List ℕ → Outcome TpmRcError ℕ
number_at offset w request =
    ok_or (map_option from_be_bytes (read_into offset w request)) command_size

-- The only request that is served asks for random bytes: how many.
unfoldable pub requested : List ℕ → Outcome TpmRcError ℕ
requested request = do
  tag ← number_at 0 2 request
  size ← number_at 2 4 request
  code ← (if size == length request then number_at 6 4 request else err command_size)
  if code == tpm_cc_number TpmCc.get_random then number_at 10 2 request else err command_code

abbrev pub header : ℕ → List ℕ
header size = to_be_bytes 2 0x8001 ++ (to_be_bytes 4 (size % 2 ^ 32) ++ to_be_bytes 4 0)

abbrev pub Served : Type 0 → Type 0
Served C = Outcome ⊥ (ℕ × (C × List ℕ))

abbrev pub reject : {C : Type 0} → C → List ℕ → TpmRcError → Served C
reject crypto response e = let (size, w) = fill_error e response in ok (size, (crypto, w))

-- The response to a request for `n` bytes, of which `produced` is what the generator gave.
unfoldable pub reply : {C : Type 0} → ℕ → List ℕ → Outcome ServerError (C × List ℕ) → Served C
reply n response (ok (crypto', filled)) =
    ok (10 + n, (crypto', header (10 + n) ++ (filled ++ drop (10 + n) response)))
reply n response (err e) = panic
reply n response panic = panic

module _ {D S : Type 0} (rng : Drbg D) (source : EntropySource S) (crypto : Crypto D S)
    (response : List ℕ) where
  unfoldable pub answer : ℕ → Served (Crypto D S)
  answer n =
      if ltb (length response) (10 + n)
      then reject crypto response memory
      else reply n response (try_get_random rng source crypto (take n (drop 10 response)))

  unfoldable pub serve : List ℕ → Served (Crypto D S)
  serve request = elim (requested request) [
    | ok n ↦ answer n
    | err e ↦ reject crypto response e
    | panic ↦ panic
  ]
