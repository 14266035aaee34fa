-- ===== src/Server/Steps.antt =====
-- server/src/tpmctx.rs: a `TpmContext` over its life, one request after the other. Its state is that
-- of the generator and of the source of entropy.
pub mod Invariant
pub mod Sequence
use tpm_rs.Prelude.{ℕ, ◌≡◌, List, [], ◌∷◌}
use tpm_rs.Outcome.{Outcome, ok, ◌>>=◌}
use tpm_rs.Server.Crypto.{Drbg, EntropySource, Crypto, crypto_new}
use tpm_rs.Server.Context.{execute_command_separate, execute_command_in_place}

module _ {D S : Type 0} (rng : Drbg D) (source : EntropySource S) where
  -- One request, in a buffer of its own or in that of the response.
  pub data Step : Crypto D S → Crypto D S → Type 0 where
    separate_step :
        {c c' : Crypto D S} (request response w : List ℕ) (size : ℕ)
        → execute_command_separate rng source c request response ≡ ok (size, (c', w))
        → Step c c'
    in_place_step :
        {c c' : Crypto D S} (buffer w : List ℕ) (request_size size : ℕ)
        → execute_command_in_place rng source c buffer request_size ≡ ok (size, (c', w))
        → Step c c'

  -- The states from `TpmContext::new` on.
  pub data Reachable : Crypto D S → Type 0 where
    started : {c : Crypto D S} → crypto_new rng source ≡ ok c → Reachable c
    stepped : {c c' : Crypto D S} → Reachable c → Step c c' → Reachable c'

  -- A sequence of requests, each with the buffer for its response, and the responses.
  unfoldable pub execute_all :
      Crypto D S → List (List ℕ × List ℕ) → Outcome ⊥ (Crypto D S × List (ℕ × List ℕ))
  execute_all crypto [] = ok (crypto, [])
  execute_all crypto ((request, response) ∷ requests) = do
    (size, (crypto', w)) ← execute_command_separate rng source crypto request response
    (last, responses) ← execute_all crypto' requests
    ok (last, (size, w) ∷ responses)
