-- ===== src/Server/Steps/Invariant.antt =====
-- server/src: what holds of the generator and of the source of entropy in every state that a
-- `TpmContext` can reach.
use tpm_rs.Prelude.{
  ℕ, ◌+◌, ◌≡◌, ◌∙◌, sym, refl, Bool, true, false, List, [], length, take, drop, ltb, Bool-cases,
  inl, inr,
}
use tpm_rs.Outcome.{map_err-eq-ok, Outcome, ok, err, panic, map_err, >>=-eq-ok}
use tpm_rs.Errors.{TpmRcError, memory}
use tpm_rs.Server.Crypto.{
  ServerError, from_drbg, Drbg, EntropySource, Crypto, crypto_new, reseed_if_required,
  try_get_random,
}
use tpm_rs.Server.Context.{execute_command_separate}
use tpm_rs.Server.Spec.{requested, Served, reject, reply, answer, serve}
use tpm_rs.Server.Refinement.{execute_command_separate-serve, execute_command_in_place-separate}
use tpm_rs.Server.Steps.{Step, separate_step, in_place_step, Reachable, started, stepped}

-- What the operations that the platform brings promise. `P` is what holds of a generator between two
-- requests, and `R` what it needs before it fills a slice: it is ready where it says that it need not
-- be reseeded, and behind a reseeding with a seed of the source. Nothing is promised of one that is
-- filled and is not ready, of other seeds and nonces, or of an additional input.
pub record Keeps {D S : Type 0} (rng : Drbg D) (source : EntropySource S) (P R : D → Type 0)
    (Q : S → Type 0) (Seed Nonce : List ℕ → Type 0) : Type 0 where
  pub instantiated : (e n : List ℕ) (d : D) → Seed e → Nonce n → rng.instantiate e n [] ≡ ok d → P d
  pub due : (d : D) → P d → (rng.requires_reseeding d).0 ≡ true → P (rng.requires_reseeding d).1
  pub ready : (d : D) → P d → (rng.requires_reseeding d).0 ≡ false → R (rng.requires_reseeding d).1
  pub reseeded : (d d' : D) (e : List ℕ) → P d → Seed e → rng.reseed d e [] ≡ ok d' → R d'
  pub given :
      (d d' : D) (buffer filled : List ℕ)
      → R d
      → rng.fill_bytes d [] buffer ≡ ok (d', filled)
      → P d'
  pub source_new : Q source.instantiate_source
  pub seed_drawn :
      (s : S)
      → Q s
      → Q (source.fill_entropy s rng.entropy_default).1
        × Seed (source.fill_entropy s rng.entropy_default).0
  pub nonce_drawn :
      (s : S)
      → Q s
      → Q (source.fill_entropy s rng.nonce_default).1
        × Nonce (source.fill_entropy s rng.nonce_default).0

module _ {D S : Type 0} (rng : Drbg D) (source : EntropySource S) (P R : D → Type 0)
    (Q : S → Type 0) (Seed Nonce : List ℕ → Type 0)
    (keeps : Keeps rng source P R Q Seed Nonce) where
  abbrev pub Holds : Crypto D S → Type 0
  Holds c = P c.drbg × Q c.entropy

  crypto_new-Holds : (c : Crypto D S) → crypto_new rng source ≡ ok c → Holds c
  unfolding crypto_new
  crypto_new-Holds c e =
      let s = source.fill_entropy source.instantiate_source rng.entropy_default in
      let s' = source.fill_entropy s.1 rng.nonce_default in
      let (q, seed) = keeps.seed_drawn source.instantiate_source keeps.source_new in
      let (q', nonce) = keeps.nonce_drawn s.1 q in
      let (d, made, done) = >>=-eq-ok (map_err from_drbg (rng.instantiate s.0 s'.0 [])) _ e in
      let p : P d = keeps.instantiated s.0 s'.0 d seed nonce (map_err-eq-ok from_drbg _ _ made) in
      let same : record { drbg = d; entropy = s'.1 } ≡ c = cc done in rw (← same) (p, q')

  -- After the question, and the reseeding where the answer was yes, the generator is ready.
  reseed_if_required-ready :
      (needed : Bool) (d : D) (s : S) (c : Crypto D S)
      → P d
      → Q s
      → (rng.requires_reseeding d).0 ≡ needed
      → reseed_if_required rng source needed (rng.requires_reseeding d).1 s ≡ ok c
      → R c.drbg × Q c.entropy
  unfolding reseed_if_required
  reseed_if_required-ready true d s c p q asked e =
      let r = source.fill_entropy s rng.entropy_default in
      let d1 = (rng.requires_reseeding d).1 in
      let (q', seed) = keeps.seed_drawn s q in
      let (d', seeded, done) = >>=-eq-ok (map_err from_drbg (rng.reseed d1 r.0 [])) _ e in
      let same : record { drbg = d'; entropy = r.1 } ≡ c = cc done in
      rw (← same) (
        keeps.reseeded d1 d' r.0 (keeps.due d p asked) seed (map_err-eq-ok from_drbg _ _ seeded),
        q',
      )
  reseed_if_required-ready false d s c p q asked e =
      let same : record { drbg = (rng.requires_reseeding d).1; entropy = s } ≡ c = cc e in
      rw (← same) (keeps.ready d p asked, q)

  try_get_random-Holds :
      (c c' : Crypto D S) (buffer filled : List ℕ)
      → Holds c
      → try_get_random rng source c buffer ≡ ok (c', filled)
      → Holds c'
  unfolding try_get_random
  try_get_random-Holds c c' buffer filled holds e =
      let asked = rng.requires_reseeding c.drbg in
      let (c1, seeded, more) =
        >>=-eq-ok (reseed_if_required rng source asked.0 asked.1 c.entropy) _ e in
      let held = reseed_if_required-ready asked.0 c.drbg c.entropy c1 holds.0 holds.1 refl seeded in
      let ((d', out), given, done) =
        >>=-eq-ok (map_err from_drbg (rng.fill_bytes c1.drbg [] buffer)) _ more in
      let p : P d' = keeps.given c1.drbg d' buffer out held.0 (map_err-eq-ok from_drbg _ _ given) in
      let same : record { drbg = d'; entropy = c1.entropy } ≡ c' = cc done in
      rw (← same) (p, held.1)

  -- A run that returns leaves a state that has the invariant.
  IsKept : Served (Crypto D S) → Type 0
  IsKept (ok (size, (c, w))) = Holds c
  IsKept (err e) = Unit
  IsKept panic = Unit

  reply-IsKept :
      (n : ℕ) (response : List ℕ) (m : Outcome ServerError (Crypto D S × List ℕ))
      → ((c : Crypto D S) (filled : List ℕ) → m ≡ ok (c, filled) → Holds c)
      → IsKept (reply n response m)
  unfolding IsKept reply
  reply-IsKept n response (ok (c, filled)) held = held c filled refl
  reply-IsKept n response (err e) held = tt
  reply-IsKept n response panic held = tt

  reject-IsKept :
      (c : Crypto D S) (response : List ℕ) (e : TpmRcError) → Holds c → IsKept (reject c response e)
  unfolding IsKept
  reject-IsKept c response e holds = holds

  answer-IsKept :
      (c : Crypto D S) (response : List ℕ) (n : ℕ)
      → Holds c
      → IsKept (answer rng source c response n)
  unfolding answer
  answer-IsKept c response n holds = elim (Bool-cases (ltb (length response) (10 + n))) [
    | inl short ↦ rw short (reject-IsKept c response memory holds)
    | inr long ↦ rw long (
        reply-IsKept n response (try_get_random rng source c (take n (drop 10 response)))
          λ c' filled e. try_get_random-Holds c c' (take n (drop 10 response)) filled holds e)
  ]

  serve-IsKept :
      (c : Crypto D S) (response request : List ℕ) (m : Outcome TpmRcError ℕ)
      → Holds c
      → requested request ≡ m
      → IsKept (serve rng source c response request)
  unfolding serve
  serve-IsKept c response request (ok n) holds e = rw (serve, e) (answer-IsKept c response n holds)
  serve-IsKept c response request (err x) holds e = rw (serve, e) (reject-IsKept c response x holds)
  serve-IsKept c response request panic holds e = rw (serve, e) (unfold IsKept in tt)

  separate-Holds :
      (c c' : Crypto D S) (request response w : List ℕ) (size : ℕ)
      → Holds c
      → execute_command_separate rng source c request response ≡ ok (size, (c', w))
      → Holds c'
  separate-Holds c c' request response w size holds e =
      let served = sym (execute_command_separate-serve rng source c request response) ∙ e in
      unfold IsKept in rw served at (serve-IsKept c response request (requested request) holds refl)

  Step-Holds : {c c' : Crypto D S} → Step rng source c c' → Holds c → Holds c'
  Step-Holds {c} {c'} (separate_step request response w size e) holds =
      separate-Holds c c' request response w size holds e
  Step-Holds {c} {c'} (in_place_step buffer w request_size size e) holds =
      separate-Holds c c' (take request_size buffer) buffer w size holds
        (sym (execute_command_in_place-separate rng source c buffer request_size) ∙ e)

  -- An invariant of the generator and one of the source hold in every state that a context
  -- reaches from new by any sequence of requests, separate or in place, answered or refused,
  -- under these conditions: a new source has its own; drawing keeps it and gives a fit seed or
  -- nonce; instantiating with a fit seed and nonce gives that of the generator; asking whether
  -- it must be reseeded keeps it if the answer is yes, and makes it ready if not; reseeding
  -- with a fit seed makes it ready; and filling a slice gives it back if the generator was
  -- ready.
  pub Reachable-Holds : (c : Crypto D S) → Reachable rng source c → Holds c
  Reachable-Holds c (started e) = crypto_new-Holds c e
  Reachable-Holds c (stepped before step) = Step-Holds step (Reachable-Holds _ before)
