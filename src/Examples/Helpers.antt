-- ===== src/Examples/Helpers.antt =====
-- The helpers for generators of server/src at the generator that counts.
use tpm_rs.Prelude.{ℕ, ◌≡◌, refl, arith, [], ◌∷◌, ◌++◌, take, replicate}
use tpm_rs.Outcome.{ok}
use tpm_rs.Server.Helpers.{to_le_bytes, fill_last_bytes, fill_bytes_via_next, next_u64_via_fill}
use tpm_rs.Server.HelperLaws.{draw, fill_bytes_via_next-draw, next_u64_via_fill-eq}
use tpm_rs.Examples.Server.{counter}

-- Ten bytes take a word of eight and one of four.
ten :
    fill_bytes_via_next counter 6 [] (replicate 10 0)
    ≡ ok (8, to_le_bytes 8 6 ++ take 2 (to_le_bytes 4 7))
unfolding fill_bytes_via_next fill_last_bytes
ten = refl

fill_bytes_via_next-draw_example :
    fill_bytes_via_next counter 6 [] (replicate 10 0) ≡ draw counter (8 ∷ 2 ∷ []) 6 []
fill_bytes_via_next-draw_example = fill_bytes_via_next-draw counter 6 [] (replicate 10 0)

next_u64_via_fill-eq_example :
    (x : ℕ) × (next_u64_via_fill counter 6 [] ≡ ok (x, 7)) × (to_le_bytes 8 x ≡ replicate 8 7)
next_u64_via_fill-eq_example = next_u64_via_fill-eq counter 6 7 [] (replicate 8 7) refl refl (
  omega arith,
  (
    omega arith,
    (omega arith, (omega arith, (omega arith, (omega arith, (omega arith, (omega arith, tt)))))),
  ),
)
