-- ===== src/Examples/Server.antt =====
-- Runs of the command loop of server/src, with a generator that counts.
use tpm_rs.Prelude.{
  ℕ, suc, ◌≤◌, ◌≡◌, refl, arith, List, [], ◌∷◌, ◌++◌, length, take, drop, replicate,
  length-replicate, ltb,
}
use tpm_rs.Outcome.{ok}
use tpm_rs.Errors.{command_size, command_code, memory}
use tpm_rs.Marshal.Core.{to_be_bytes}
use tpm_rs.Server.Crypto.{Drbg, EntropySource, Crypto, try_get_random, reseed_if_required}
use tpm_rs.Server.Context.{fill_error, execute_command_separate, execute_command_in_place}
use tpm_rs.Server.Spec.{header, reject, serve}
use tpm_rs.Server.Requests.{request_of, get_random_request}
use tpm_rs.Server.Refinement.{execute_command_separate-serve, execute_command_in_place-separate}
use tpm_rs.Server.Responses.{
  get_random-answered, get_random-no_room, wrong_size-rejected, other_command-rejected,
  truncated-rejected, fill_error-fits,
}
use tpm_rs.Server.Returns.{execute_command_separate-returns, execute_command_separate-bounded}

-- A generator whose state is the last byte that it gave.
abbrev pub counter : Drbg ℕ
counter = record {
  entropy_default = 0 ∷ 0 ∷ [];
  nonce_default = 0 ∷ [];
  instantiate = λ e n p. ok 6;
  reseed = λ d e a. ok 0;
  next_u32 = λ d a. ok (d, suc d);
  next_u64 = λ d a. ok (d, suc d);
  fill_bytes = λ d a buffer. ok (suc d, replicate (length buffer) (suc d));
  requires_reseeding = λ d. (ltb 200 d, d);
}

abbrev zeros : EntropySource (Unit {0})
zeros = record { instantiate_source = tt; fill_entropy = λ s dest. (dest, s) }

abbrev fresh : Crypto ℕ (Unit {0})
fresh = record { drbg = 6; entropy = tt }

abbrev used : Crypto ℕ (Unit {0})
used = record { drbg = 7; entropy = tt }

-- `TPM2_GetRandom` for two bytes, and a buffer of sixteen.
abbrev two_bytes : List ℕ
two_bytes = get_random_request 0x8001 2 []

abbrev sixteen : List ℕ
sixteen = replicate 16 9

given : try_get_random counter zeros fresh (take 2 (drop 10 sixteen)) ≡ ok (used, 7 ∷ 7 ∷ [])
unfolding try_get_random reseed_if_required
given = refl

separate-serve_example :
    execute_command_separate counter zeros fresh two_bytes sixteen
    ≡ serve counter zeros fresh sixteen two_bytes
separate-serve_example = execute_command_separate-serve counter zeros fresh two_bytes sixteen

in_place-separate_example :
    execute_command_in_place counter zeros fresh (two_bytes ++ replicate 4 0) 12
    ≡ execute_command_separate counter zeros fresh
        (take 12 (two_bytes ++ replicate 4 0))
        (two_bytes ++ replicate 4 0)
in_place-separate_example =
    execute_command_in_place-separate counter zeros fresh (two_bytes ++ replicate 4 0) 12

get_random-answered_example :
    execute_command_separate counter zeros fresh two_bytes sixteen
    ≡ ok (12, (used, header 12 ++ ((7 ∷ 7 ∷ []) ++ drop 12 sixteen)))
get_random-answered_example =
    get_random-answered counter zeros fresh 0x8001 2 [] sixteen (7 ∷ 7 ∷ []) used (omega arith)
      (omega arith) (omega arith) (omega arith) given

get_random-no_room_example :
    execute_command_separate counter zeros fresh (get_random_request 0x8001 7 []) sixteen
    ≡ reject fresh sixteen memory
get_random-no_room_example =
    get_random-no_room counter zeros fresh 0x8001 7 [] sixteen (omega arith) (omega arith)
      (omega arith) (omega arith)

wrong_size-rejected_example :
    execute_command_separate counter zeros fresh (request_of 0x8001 13 0x17B (0 ∷ 2 ∷ [])) sixteen
    ≡ reject fresh sixteen command_size
wrong_size-rejected_example =
    wrong_size-rejected counter zeros fresh 0x8001 13 0x17B (0 ∷ 2 ∷ []) sixteen (omega arith)
      (omega arith) (omega arith) (λ e. omega (arith, e))

other_command-rejected_example :
    execute_command_separate counter zeros fresh (request_of 0x8001 12 0x144 (0 ∷ 0 ∷ [])) sixteen
    ≡ reject fresh sixteen command_code
other_command-rejected_example =
    other_command-rejected counter zeros fresh 0x8001 0x144 (0 ∷ 0 ∷ []) sixteen (omega arith)
      (omega arith) (omega arith) (λ e. omega (arith, e))

truncated-rejected_example :
    execute_command_separate counter zeros fresh (0x80 ∷ 1 ∷ 0 ∷ []) sixteen
    ≡ reject fresh sixteen command_size
truncated-rejected_example =
    truncated-rejected counter zeros fresh (0x80 ∷ 1 ∷ 0 ∷ []) sixteen (omega arith)

error_at_six :
    fill_error memory sixteen ≡ (10, take 6 sixteen ++ (to_be_bytes 4 0x904 ++ drop 10 sixteen))
error_at_six = fill_error-fits memory sixteen (omega arith)

counter-works :
    (buffer : List ℕ)
    → (r : Crypto ℕ (Unit {0}) × List ℕ) × (try_get_random counter zeros fresh buffer ≡ ok r)
unfolding try_get_random reseed_if_required
counter-works buffer = (_, refl)

separate-returns_example :
    (r : ℕ × (Crypto ℕ (Unit {0}) × List ℕ)) × (execute_command_separate counter zeros fresh
        two_bytes sixteen
      ≡ ok r)
separate-returns_example =
    execute_command_separate-returns counter zeros fresh two_bytes sixteen counter-works

counter-keeps :
    (d d' : ℕ) (input buffer filled : List ℕ)
    → counter.fill_bytes d input buffer ≡ ok (d', filled)
    → length filled ≡ length buffer
counter-keeps d d' input buffer filled e =
    let same : replicate (length buffer) (suc d) ≡ filled = cc e in
    rw (← same) (length-replicate (length buffer) (suc d))

separate-bounded_example :
    (length (header 12 ++ ((7 ∷ 7 ∷ []) ++ drop 12 sixteen)) ≡ length sixteen)
    × (12 ≤ length (header 12 ++ ((7 ∷ 7 ∷ []) ++ drop 12 sixteen)))
separate-bounded_example =
    execute_command_separate-bounded counter zeros fresh counter-keeps two_bytes sixteen
      (header 12 ++ ((7 ∷ 7 ∷ []) ++ drop 12 sixteen)) 12 used get_random-answered_example
