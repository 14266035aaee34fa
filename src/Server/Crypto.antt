-- ===== src/Server/Crypto.antt =====
-- server/src/platform/crypto: the traits `Drbg` and `EntropySource`, whose implementations the
-- platform supplies, with the helpers of drbg/helpers.rs; and server/src/crypto.rs. After an error no
-- caller looks at the generator again, so its state is not returned.
use tpm_rs.Prelude.{ℕ, Bool, true, false, List, []}
use tpm_rs.Outcome.{Outcome, ok, ◌>>=◌, map_err}

pub data DrbgError : Type 0 where
  failed : DrbgError

pub data ServerError : Type 0 where
  drbg_error : ServerError

-- `impl From<DrbgError> for ServerError`
abbrev pub from_drbg : DrbgError → ServerError
from_drbg e = drbg_error

-- A value of the types `Entropy` and `Nonce` is its bytes.
pub record Drbg (D : Type 0) : Type 0 where
  pub entropy_default : List ℕ
  pub nonce_default : List ℕ
  pub instantiate : List ℕ → List ℕ → List ℕ → Outcome DrbgError D
  pub reseed : D → List ℕ → List ℕ → Outcome DrbgError D
  pub next_u32 : D → List ℕ → Outcome DrbgError (ℕ × D)
  pub next_u64 : D → List ℕ → Outcome DrbgError (ℕ × D)
  pub fill_bytes : D → List ℕ → List ℕ → Outcome DrbgError (D × List ℕ)
  pub requires_reseeding : D → Bool × D

pub record EntropySource (S : Type 0) : Type 0 where
  pub instantiate_source : S
  pub fill_entropy : S → List ℕ → List ℕ × S

-- `Crypto`, which is also all that a `CommandHandler` and a `TpmContext` hold.
pub record Crypto (D : Type 0) (S : Type 0) : Type 0 where
  pub drbg : D
  pub entropy : S

module _ {D S : Type 0} (rng : Drbg D) (source : EntropySource S) where
  unfoldable pub crypto_new : Outcome ServerError (Crypto D S)
  crypto_new =
      let (entropy_input, s) = source.fill_entropy source.instantiate_source rng.entropy_default in
      let (nonce, s') = source.fill_entropy s rng.nonce_default in
      do
        d ← map_err from_drbg (rng.instantiate entropy_input nonce [])
        ok (record { drbg = d; entropy = s' })

  -- `if self.crypto.drbg.requires_reseeding() { … }`
  unfoldable pub reseed_if_required : Bool → D → S → Outcome ServerError (Crypto D S)
  reseed_if_required true d s =
      let (seed, s') = source.fill_entropy s rng.entropy_default in
      do d' ← map_err from_drbg (rng.reseed d seed []); ok (record { drbg = d'; entropy = s' })
  reseed_if_required false d s = ok (record { drbg = d; entropy = s })

  -- `CommandHandler::try_get_random`
  unfoldable pub try_get_random : Crypto D S → List ℕ → Outcome ServerError (Crypto D S × List ℕ)
  try_get_random c buffer =
      let (needed, d) = rng.requires_reseeding c.drbg in
      do
        c' ← reseed_if_required needed d c.entropy
        (d', filled) ← map_err from_drbg (rng.fill_bytes c'.drbg [] buffer)
        ok (record { drbg = d'; entropy = c'.entropy }, filled)
