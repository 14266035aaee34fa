-- ===== src/Server/Helpers.antt =====
-- server/src/platform/crypto/drbg/helpers.rs: a method of a generator by way of another.
use tpm_rs.Prelude.{
  ℕ, zero, suc, ◌+◌, ◌*◌, ◌/◌, ◌%◌, ◌^◌, bit_or, List, [], ◌∷◌, ◌++◌, length, take, replicate, ltb,
  if◌then◌else◌,
}
use tpm_rs.Outcome.{Outcome, ok, ◌>>=◌}
use tpm_rs.Server.Crypto.{DrbgError, Drbg}

-- `to_le_bytes` and `from_le_bytes` of a number of `w` bytes.
unfoldable pub to_le_bytes : ℕ → ℕ → List ℕ
to_le_bytes zero n = []
to_le_bytes (suc w) n = n % 256 ∷ to_le_bytes w (n / 256)

unfoldable pub from_le_bytes : List ℕ → ℕ
from_le_bytes [] = 0
from_le_bytes (b ∷ bs) = b + 256 * from_le_bytes bs

module _ {D : Type 0} (rng : Drbg D) where
  -- Behind the loop, with less than eight bytes to fill.
  unfoldable pub fill_last_bytes : D → List ℕ → List ℕ → Outcome DrbgError (D × List ℕ)
  fill_last_bytes r additional_input dest =
      if ltb 4 (length dest)
      then (do
        (x, r') ← rng.next_u64 r additional_input
        ok (r', take (length dest) (to_le_bytes 8 x)))
      else if ltb 0 (length dest)
      then (do
        (x, r') ← rng.next_u32 r additional_input
        ok (r', take (length dest) (to_le_bytes 4 x)))
      else ok (r, dest)

  -- The loop takes eight bytes of `dest` at a time; only its first call gets the additional input.
  unfoldable pub fill_bytes_via_next : D → List ℕ → List ℕ → Outcome DrbgError (D × List ℕ)
  fill_bytes_via_next r additional_input (a ∷ b ∷ c ∷ d ∷ e ∷ f ∷ g ∷ h ∷ dest) = do
    (x, r') ← rng.next_u64 r additional_input
    (r'', filled) ← fill_bytes_via_next r' [] dest
    ok (r'', to_le_bytes 8 x ++ filled)
  fill_bytes_via_next r additional_input dest = fill_last_bytes r additional_input dest

  unfoldable pub next_u32_via_fill : D → List ℕ → Outcome DrbgError (ℕ × D)
  next_u32_via_fill r additional_input = do
    (r', buf) ← rng.fill_bytes r additional_input (replicate 4 0)
    ok (from_le_bytes buf, r')

  unfoldable pub next_u64_via_fill : D → List ℕ → Outcome DrbgError (ℕ × D)
  next_u64_via_fill r additional_input = do
    (r', buf) ← rng.fill_bytes r additional_input (replicate 8 0)
    ok (from_le_bytes buf, r')

  unfoldable pub next_u64_via_u32 : D → List ℕ → Outcome DrbgError (ℕ × D)
  next_u64_via_u32 r additional_input = do
    (x, r') ← rng.next_u32 r additional_input
    (y, r'') ← rng.next_u32 r' []
    ok (bit_or (y * 2 ^ 32) x, r'')
