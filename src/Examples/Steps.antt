-- ===== src/Examples/Steps.antt =====
-- A life of the server of server/src, with a generator that counts from its last
-- reseeding on, and needs the next one above 6.
use tpm_rs.Prelude.{
  ℕ, suc, ◌≤◌, ◌≡◌, refl, arith, List, [], ◌∷◌, length, take, drop, replicate, length-replicate,
  ltb, Bool-cases, inl, inr,
}
use tpm_rs.Outcome.{Outcome, ok}
use tpm_rs.Server.Crypto.{
  DrbgError, Drbg, EntropySource, Crypto, crypto_new, try_get_random, reseed_if_required,
}
use tpm_rs.Server.Requests.{get_random_request}
use tpm_rs.Server.Steps.{separate_step, Reachable, started, stepped, execute_all}
use tpm_rs.Server.Steps.Invariant.{Keeps, Reachable-Holds}
use tpm_rs.Server.Steps.Sequence.{Answered, execute_all-Answered}
use tpm_rs.Server.Responses.{get_random-answered}

abbrev stepper : Drbg ℕ
stepper = record {
  entropy_default = 0 ∷ 0 ∷ [];
  nonce_default = 0 ∷ [];
  instantiate = λ e n p. ok 6;
  reseed = λ d e a. ok 1;
  next_u32 = λ d a. ok (d, suc d);
  next_u64 = λ d a. ok (d, suc d);
  fill_bytes = λ d a buffer. ok (suc d, replicate (length buffer) (suc d));
  requires_reseeding = λ d. (ltb 6 d, d);
}

-- The source of entropy counts how often it was asked.
abbrev asked_often : EntropySource ℕ
asked_often = record { instantiate_source = 0; fill_entropy = λ s dest. (dest, suc s) }

abbrev AtMost : ℕ → ℕ → Type 0
AtMost n d = d ≤ n

abbrev Anything : ℕ → Type 0
Anything s = Unit

-- As long as a seed or a nonce should be.
abbrev HasLength : ℕ → List ℕ → Type 0
HasLength n bytes = length bytes ≡ n

abbrev accepts : ℕ → Outcome DrbgError ℕ
accepts d = ok d

accepts-AtMost : (d d' : ℕ) (n : ℕ) → d ≤ n → accepts d ≡ accepts d' → d' ≤ n
accepts-AtMost d d' n p e = let same : d ≡ d' = cc e in omega (arith, same, p)

abbrev gives : ℕ → List ℕ → Outcome DrbgError (ℕ × List ℕ)
gives d filled = ok (d, filled)

gives-AtMost :
    (d d' : ℕ) (filled filled' : List ℕ) → d ≤ 6 → gives (suc d) filled' ≡ gives d' filled → d' ≤ 7
gives-AtMost d d' filled filled' p e = let same : suc d ≡ d' = cc e in omega (arith, same, p)

-- The count is at most 7, if no slice is filled above 6.
stepper-Keeps : Keeps stepper asked_often (AtMost 7) (AtMost 6) Anything (HasLength 2) (HasLength 1)
stepper-Keeps = record {
  instantiated = λ e n d seed nonce made. accepts-AtMost 6 d 7 (omega arith) made;
  due = λ d p asked. p;
  ready = λ d p asked. ground arith;
  reseeded = λ d d' e p seed made. accepts-AtMost 1 d' 6 (omega arith) made;
  given = λ d d' buffer filled p made.
      gives-AtMost d d' filled (replicate (length buffer) (suc d)) p made;
  source_new = tt;
  seed_drawn = λ s q. (tt, refl);
  nonce_drawn = λ s q. (tt, refl);
}

abbrev at_first : Crypto ℕ ℕ
at_first = record { drbg = 6; entropy = 2 }

at_first-Reachable : Reachable stepper asked_often at_first
unfolding crypto_new
at_first-Reachable = started refl

stepper-works :
    (c : Crypto ℕ ℕ) (buffer : List ℕ)
    → (r : Crypto ℕ ℕ × List ℕ) × (try_get_random stepper asked_often c buffer ≡ ok r)
unfolding try_get_random reseed_if_required
stepper-works c buffer = elim (Bool-cases (ltb 6 c.drbg)) [
  | inl old ↦ rw (try_get_random, old) (_, refl)
  | inr young ↦ rw (try_get_random, young) (_, refl)
]

stepper-keeps :
    (d d' : ℕ) (input buffer filled : List ℕ)
    → stepper.fill_bytes d input buffer ≡ ok (d', filled)
    → length filled ≡ length buffer
stepper-keeps d d' input buffer filled e =
    let same : replicate (length buffer) (suc d) ≡ filled = cc e in
    rw (← same) (length-replicate (length buffer) (suc d))

-- Behind a request for two bytes.
abbrev later : Crypto ℕ ℕ
later = record { drbg = 7; entropy = 2 }

two_given :
    try_get_random stepper asked_often at_first (take 2 (drop 10 (replicate 16 9)))
    ≡ ok (later, 7 ∷ 7 ∷ [])
unfolding try_get_random reseed_if_required
two_given = refl

later-Reachable : Reachable stepper asked_often later
later-Reachable = stepped at_first-Reachable (
    separate_step (get_random_request 0x8001 2 []) (replicate 16 9) _ 12 (
      get_random-answered stepper asked_often at_first 0x8001 2 [] (replicate 16 9) (7 ∷ 7 ∷ [])
        later (omega arith) (omega arith) (omega arith) (omega arith) two_given))

-- Behind another request the generator was reseeded.
abbrev reseeded : Crypto ℕ ℕ
reseeded = record { drbg = 2; entropy = 3 }

two_more_given :
    try_get_random stepper asked_often later (take 2 (drop 10 (replicate 16 9)))
    ≡ ok (reseeded, 2 ∷ 2 ∷ [])
unfolding try_get_random reseed_if_required
two_more_given = refl

reseeded-Reachable : Reachable stepper asked_often reseeded
reseeded-Reachable = stepped later-Reachable (
    separate_step (get_random_request 0x8001 2 []) (replicate 16 9) _ 12 (
      get_random-answered stepper asked_often later 0x8001 2 [] (replicate 16 9) (2 ∷ 2 ∷ [])
        reseeded (omega arith) (omega arith) (omega arith) (omega arith) two_more_given))

Reachable-Holds_example : (2 ≤ 7) × Unit {0}
Reachable-Holds_example =
    Reachable-Holds stepper asked_often (AtMost 7) (AtMost 6) Anything (HasLength 2) (HasLength 1)
      stepper-Keeps reseeded reseeded-Reachable

-- A request that is answered, one that is refused, and one whose buffer has no room.
abbrev requests : List (List ℕ × List ℕ)
requests =
    (get_random_request 0x8001 2 [], replicate 16 9)
    ∷ (0x80 ∷ [], replicate 12 9)
    ∷ (get_random_request 0x8001 2 [], replicate 4 9)
    ∷ []

execute_all-Answered_example :
    (last : Crypto ℕ ℕ) × (responses : List (ℕ × List ℕ)) × (execute_all stepper asked_often
        at_first requests
      ≡ ok (last, responses))
    × Answered requests responses
execute_all-Answered_example =
    execute_all-Answered stepper asked_often stepper-works stepper-keeps at_first requests
