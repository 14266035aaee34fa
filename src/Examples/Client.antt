-- ===== src/Examples/Client.antt =====
-- Runs of client/src: a command for two random bytes with a password, and its responses.
use tpm_rs.Prelude.{
  ℕ, suc, ◌+◌, ◌-◌, ◌≡◌, ◌≢◌, ◌⊎◌, refl, arith, none, some, List, [], ◌∷◌, ◌++◌, length, take, drop,
  replicate, ltb,
}
use tpm_rs.Outcome.{ok, err, panic}
use tpm_rs.Errors.{bad_parameter, tpm_unexpected}
use tpm_rs.Marshal.Core.{to_be_bytes}
use tpm_rs.Marshal.Lawful.{unit_format, unit-Lawful}
use tpm_rs.Tpm2b.Simple.{Tpm2b, overlay, default}
use tpm_rs.Tpm2b.SimpleLaws.{IsSized, overlay-IsSized}
use tpm_rs.Base.Buffers.{tpm2b_digest_capacity}
use tpm_rs.Base.Session.{
  TpmsAuthCommand, TpmsAuthResponse, tpms_auth_command_format, tpms_auth_response_format,
}
use tpm_rs.Base.Commands.Management.{
  GetRandomResp, get_random_cmd_format, get_random_cmd-Lawful, get_random_resp_format,
  get_random_resp-Lawful, startup_cmd_format, startup_cmd-Lawful,
}
use tpm_rs.Server.Crypto.{Drbg, EntropySource, Crypto, try_get_random, reseed_if_required}
use tpm_rs.Server.Requests.{request_of}
use tpm_rs.Client.Session.{
  PasswordSession, password, password_new, get_secret, rs_pw, password_command, password_validate,
  no_session,
}
use tpm_rs.Client.Session.Password.{password_command-bytes, password_validate-cases}
use tpm_rs.Client.Areas.{area_0, area_1}
use tpm_rs.Client.Command.{build_command}
use tpm_rs.Client.Command.Layout.{build_command-request_of}
use tpm_rs.Client.Emit.Laws.{filled}
use tpm_rs.Client.Response.{read_response}
use tpm_rs.Client.Response.Laws.{read_response-failed, read_response-sized}
use tpm_rs.Client.Response.Accepted.{read_response-payload}
use tpm_rs.Client.Run.{run_command, run_command_with_handles}
use tpm_rs.Client.Refused.{run_command_with_handles-refused}
use tpm_rs.Client.Interop.{
  service, buffer_4096, tail, run-get_random, response_to-request_of, get_random-two_less,
}
use tpm_rs.Client.Instances.{get_random_command, startup_command}

abbrev word : List ℕ
word = 1 ∷ 2 ∷ 3 ∷ []

password_command-bytes_example :
    (s : PasswordSession) × (password_new word ≡ ok s)
    × (get_secret s ≡ ok word)
    × tpms_auth_command_format.Valid (password_command s)
    × (tpms_auth_command_format.encode (password_command s)
        ≡ to_be_bytes 4 rs_pw ++ (to_be_bytes 2 0 ++ (0 ∷ to_be_bytes 2 (length word) ++ word)))
password_command-bytes_example =
    password_command-bytes word (omega arith) (omega arith, (omega arith, (omega arith, tt)))

-- A sized buffer with these bytes.
abbrev digest : List ℕ → Tpm2b
digest bytes = record {
  size = length bytes;
  buffer = overlay bytes (replicate tpm2b_digest_capacity 0);
}

word-IsSized : IsSized tpm2b_digest_capacity (digest word)
word-IsSized =
    overlay-IsSized tpm2b_digest_capacity 3 word refl (omega arith) (omega arith)
      (omega arith, (omega arith, (omega arith, tt)))

empty-IsSized : IsSized tpm2b_digest_capacity (digest [])
empty-IsSized = overlay-IsSized tpm2b_digest_capacity 0 [] refl (omega arith) (omega arith) tt

abbrev a_session : PasswordSession
a_session = record { auth = digest word }

abbrev its_command : TpmsAuthCommand
its_command = password_command a_session

its_command-Valid : tpms_auth_command_format.Valid its_command
unfolding tpms_auth_command_format default
its_command-Valid = (omega arith, (empty-IsSized, (omega arith, word-IsSized)))

-- The four bytes of the size of the area, the command of the session, and the parameter.
abbrev its_body : List ℕ
its_body =
    to_be_bytes 4 12
    ++ (to_be_bytes 4 0x40000009 ++ (0 ∷ 0 ∷ 0 ∷ 0 ∷ 3 ∷ 1 ∷ 2 ∷ 3 ∷ to_be_bytes 2 2))

build_command_example :
    build_command password no_session no_session
      (area_1 PasswordSession)
      get_random_command
      (record { bytes_requested = 2 })
      tt
      a_session
      (replicate 40 0)
    ≡ filled (request_of 0x8002 28 0x17B its_body) (replicate 40 0)
unfolding tpms_auth_command_format get_random_cmd_format default to_be_bytes
build_command_example =
    build_command-request_of password no_session no_session (area_1 PasswordSession)
      get_random_command get_random_cmd_format unit_format get_random_cmd-Lawful unit-Lawful
      (record { bytes_requested = 2 }) tt a_session (some its_command) none none
      ((refl, its_command-Valid), tt, tt) (omega arith) tt (omega arith) (replicate 40 0)
      (omega arith) (omega arith)

-- What a service answers to a password.
abbrev its_response : TpmsAuthResponse
its_response = record { nonce = digest []; session_attributes = 1; hmac = digest [] }

its_response-Valid : tpms_auth_response_format.Valid its_response
unfolding tpms_auth_response_format
its_response-Valid = (empty-IsSized, (omega arith, empty-IsSized))

accepted : password_validate its_response ≡ ok tt
unfolding password_validate
accepted = refl

abbrev given_bytes : GetRandomResp
given_bytes = record { random_bytes = digest word }

-- With a size of the parameters, which is not looked at, and one byte too many.
read_response-payload_example :
    read_response password no_session no_session
      (area_1 PasswordSession)
      get_random_command
      a_session
      (request_of 0x8002 25 0
        ((to_be_bytes 4 77 ++ (0 ∷ 3 ∷ 1 ∷ 2 ∷ 3 ∷ 0 ∷ 0 ∷ 1 ∷ 0 ∷ 0 ∷ 9 ∷ [])) ++ replicate 20 0))
    ≡ err tpm_unexpected
unfolding get_random_resp_format tpms_auth_response_format to_be_bytes
read_response-payload_example =
    read_response-payload password no_session no_session (area_1 PasswordSession) get_random_command
      a_session get_random_resp_format unit_format get_random_resp-Lawful unit-Lawful 0x8002 77
      given_bytes tt (some its_response) none none ((accepted, its_response-Valid), tt, tt)
      word-IsSized tt (omega arith) (9 ∷ []) (replicate 20 0) (omega arith) (omega arith)

read_response-failed_example :
    read_response no_session no_session no_session area_0 get_random_command tt
      (request_of 0x8001 3 0x101 (replicate 20 0))
    ≡ err (record { code = 0x101 })
read_response-failed_example =
    read_response-failed no_session no_session no_session area_0 get_random_command tt 0x8001 3
      0x101 (replicate 20 0) (omega arith) (omega arith) (omega arith) (λ e. omega (arith, e))

read_response-sized_example :
    read_response no_session no_session no_session area_0 get_random_command tt
      (request_of 0x8001 9 0 (replicate 20 0))
    ≡ panic
read_response-sized_example =
    read_response-sized no_session no_session no_session area_0 get_random_command tt 0x8001 9
      (replicate 20 0) (omega arith) (omega arith)

password_validate_example :
    ((password_validate its_response ≡ ok tt)
      × (its_response.nonce.size ≡ 0)
      × (its_response.session_attributes ≡ 1)
      × (its_response.hmac.size ≡ 0))
    ⊎ ((password_validate its_response ≡ err bad_parameter)
        × ((its_response.nonce.size ≢ 0)
            ⊎ (its_response.session_attributes ≢ 1)
            ⊎ (its_response.hmac.size ≢ 0)))
password_validate_example = password_validate-cases its_response

-- A generator whose bytes happen to start with a size.
abbrev lucky : Drbg ℕ
lucky = record {
  entropy_default = 0 ∷ [];
  nonce_default = 0 ∷ [];
  instantiate = λ e n p. ok 6;
  reseed = λ d e a. ok 0;
  next_u32 = λ d a. ok (d, suc d);
  next_u64 = λ d a. ok (d, suc d);
  fill_bytes = λ d a buffer. ok (suc d, 0 ∷ 3 ∷ replicate (length buffer - 2) 9);
  requires_reseeding = λ d. (ltb 200 d, d);
}

abbrev zeros : EntropySource (Unit {0})
zeros = record { instantiate_source = tt; fill_entropy = λ s dest. (dest, s) }

abbrev before : Crypto ℕ (Unit {0})
before = record { drbg = 6; entropy = tt }

abbrev after : Crypto ℕ (Unit {0})
after = record { drbg = 7; entropy = tt }

abbrev lucky_bytes : List ℕ
lucky_bytes = 0 ∷ 3 ∷ 9 ∷ 9 ∷ 9 ∷ []

given : try_get_random lucky zeros before (take 5 (drop 10 buffer_4096)) ≡ ok (after, lucky_bytes)
unfolding try_get_random reseed_if_required
given = refl

abbrev three_nines : GetRandomResp
three_nines = record { random_bytes = digest (9 ∷ 9 ∷ 9 ∷ []) }

three_nines-IsSized : IsSized tpm2b_digest_capacity (digest (9 ∷ 9 ∷ 9 ∷ []))
three_nines-IsSized =
    overlay-IsSized tpm2b_digest_capacity 3 (9 ∷ 9 ∷ 9 ∷ []) refl (omega arith) (omega arith)
      (omega arith, (omega arith, (omega arith, tt)))

lucky_run :
    run_command (service lucky zeros) get_random_command (record { bytes_requested = 5 }) before
    ≡ (ok three_nines, after)
unfolding run_command get_random_resp_format to_be_bytes
lucky_run =
    let read =
      read_response-payload no_session no_session no_session area_0 get_random_command tt
        get_random_resp_format unit_format get_random_resp-Lawful unit-Lawful 0x8001 0 three_nines
        tt none none none (tt, tt, tt) three_nines-IsSized tt (omega arith) []
        (tail lucky zeros before after 5 lucky_bytes) (omega arith) (omega arith) in
    rw
      (
        run_command,
        run-get_random lucky zeros before after 5 lucky_bytes (omega arith) given,
        response_to-request_of lucky zeros before after 5 lucky_bytes (omega arith),
        read,
      )
      refl

get_random-two_less_example : 3 + 2 ≡ 5
get_random-two_less_example =
    get_random-two_less lucky zeros before after 5 lucky_bytes three_nines after (omega arith) given
      refl (omega arith, (omega arith, (omega arith, (omega arith, (omega arith, tt))))) lucky_run

run_command_with_handles-refused_example :
    run_command_with_handles
      (service lucky zeros)
      password
      no_session
      no_session
      (area_1 PasswordSession)
      startup_command
      (record { startup_type = 0 })
      tt
      a_session
      before
    ≡ (err (record { code = 0x143 }), before)
unfolding tpms_auth_command_format startup_cmd_format default to_be_bytes
run_command_with_handles-refused_example =
    run_command_with_handles-refused lucky zeros password no_session no_session
      (area_1 PasswordSession) startup_command startup_cmd_format unit_format startup_cmd-Lawful
      unit-Lawful (record { startup_type = 0 }) tt a_session (some its_command) none none before
      ((refl, its_command-Valid), tt, tt) (omega arith) tt (omega arith) (omega arith)
      (λ e. omega (arith, e))
