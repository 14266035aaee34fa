-- ===== src/Server/Steps/Sequence.antt =====
-- server/src/tpmctx.rs: a sequence of requests.
use tpm_rs.Prelude.{ℕ, ◌≤◌, ◌≡◌, refl, List, [], ◌∷◌, length}
use tpm_rs.Outcome.{ok}
use tpm_rs.Server.Crypto.{Drbg, EntropySource, Crypto, try_get_random}
use tpm_rs.Server.Returns.{execute_command_separate-returns, execute_command_separate-bounded}
use tpm_rs.Server.Steps.{execute_all}

-- Each response stands in the buffer of its request.
abbrev pub Answered : List (List ℕ × List ℕ) → List (ℕ × List ℕ) → Type 0
Answered [] [] = Unit
Answered [] (r ∷ rs) = ⊥
Answered (q ∷ qs) [] = ⊥
Answered ((request, response) ∷ qs) ((size, w) ∷ rs) =
    (length w ≡ length response) × (size ≤ length w) × Answered qs rs

module _ {D S : Type 0} (rng : Drbg D) (source : EntropySource S)
    (works : (c : Crypto D S) (buffer : List ℕ)
      → (r : Crypto D S × List ℕ) × (try_get_random rng source c buffer ≡ ok r))
    (keeps : (d d' : D) (input buffer filled : List ℕ)
      → rng.fill_bytes d input buffer ≡ ok (d', filled)
      → length filled ≡ length buffer) where
  -- If the generator succeeds in every state and keeps the length of the slice that it fills,
  -- any sequence of requests is answered to its end, each in its own buffer, which keeps its
  -- length, and with a size within it.
  pub execute_all-Answered :
      (c : Crypto D S) (requests : List (List ℕ × List ℕ))
      → (last : Crypto D S) × (responses : List (ℕ × List ℕ)) × (execute_all rng source c requests
          ≡ ok (last, responses))
        × Answered requests responses
  unfolding execute_all
  execute_all-Answered c [] = (c, [], refl, tt)
  execute_all-Answered c ((request, response) ∷ requests) =
      let ((size, (c', w)), done) =
        execute_command_separate-returns rng source c request response (works c) in
      let (last, responses, rest, answered) = execute_all-Answered c' requests in
      let (kept, within) =
        execute_command_separate-bounded rng source c keeps request response w size c' done in
      (last, (size, w) ∷ responses, rw (execute_all, done, rest) refl, (kept, within, answered))
