-- ===== src/Server/HelperLaws.antt =====
-- The slices that server/src/platform/crypto/drbg/helpers.rs fills, and its words.
use tpm_rs.Prelude.{
  ℕ, suc, ◌+◌, ◌*◌, ◌/◌, ◌%◌, ◌<◌, ◌≡◌, ◌∙◌, sym, ap, refl, arith, List, [], ◌∷◌, ◌++◌, length,
  take, replicate, All, ltb, lt→ltb, ◌==◌, ne→==, if◌then◌else◌, append-nil,
}
use tpm_rs.Outcome.{Outcome, ok, err, panic, ◌>>=◌}
use tpm_rs.Marshal.Core.{IsByte}
use tpm_rs.Server.Crypto.{DrbgError, Drbg}
use tpm_rs.Server.Helpers.{
  to_le_bytes, from_le_bytes, fill_last_bytes, fill_bytes_via_next, next_u64_via_fill,
}

-- A slice of `n` bytes is cut into pieces of eight bytes and, if any are left, a shorter one.
abbrev pub pieces : ℕ → List ℕ
pieces n = replicate (n / 8) 8 ++ (if n % 8 == 0 then [] else n % 8 ∷ [])

pieces-short : (n : ℕ) → 0 < n → n < 8 → pieces n ≡ n ∷ []
pieces-short n h k =
    let q : n / 8 ≡ 0 = omega (arith, k) in
    let m : n % 8 ≡ n = omega (arith, k) in rw (q, m, ne→== n 0 (λ e. omega (arith, e, h))) refl

pieces-eight : (m n : ℕ) → m ≡ 8 + n → pieces m ≡ 8 ∷ pieces n
pieces-eight m n e =
    let q : m / 8 ≡ suc (n / 8) = omega (arith, e) in
    let r : m % 8 ≡ n % 8 = omega (arith, e) in rw (q, r) refl

pub to_le_bytes-from_le_bytes :
    (bs : List ℕ) → All IsByte bs → to_le_bytes (length bs) (from_le_bytes bs) ≡ bs
unfolding to_le_bytes from_le_bytes
to_le_bytes-from_le_bytes [] h = refl
to_le_bytes-from_le_bytes (b ∷ bs) h =
    let n = from_le_bytes bs in
    let low : (b + 256 * n) % 256 ≡ b = omega (arith, h.0) in
    let high : (b + 256 * n) / 256 ≡ n = omega (arith, h.0) in
    rw (low, high) (ap (λ xs. b ∷ xs) (to_le_bytes-from_le_bytes bs h.1))

-- The first `w` bytes of a word of `size` bytes, little-endian.
unfoldable pub word_prefix {ℓ} :
    {D : Type ℓ} → ℕ → ℕ → Outcome DrbgError (ℕ × D) → Outcome DrbgError (D × List ℕ)
word_prefix size w word = do (x, r) ← word; ok (r, take w (to_le_bytes size x))

module _ {D : Type 0} (rng : Drbg D) where
  -- A word of four bytes will do for up to four.
  unfoldable pub draw_piece : ℕ → D → List ℕ → Outcome DrbgError (D × List ℕ)
  draw_piece w r input =
      if ltb 4 w
      then word_prefix 8 w (rng.next_u64 r input)
      else word_prefix 4 w (rng.next_u32 r input)

  -- Pieces of these lengths, one behind the other; the first is drawn with the additional input.
  unfoldable pub draw : List ℕ → D → List ℕ → Outcome DrbgError (D × List ℕ)
  draw [] r input = ok (r, [])
  draw (w ∷ ws) r input = do
    (r', bytes) ← draw_piece w r input
    (r'', more) ← draw ws r' []
    ok (r'', bytes ++ more)

  draw_one : (w : ℕ) (r : D) (input : List ℕ) → draw (w ∷ []) r input ≡ draw_piece w r input
  unfolding draw
  draw_one w r input = alone (draw_piece w r input)
    where
      alone : (m : Outcome DrbgError (D × List ℕ)) → (do (r', bytes) ← m; ok (r', bytes ++ [])) ≡ m
      alone (ok (r', bytes)) = ap (λ bs. ok (r', bs)) (append-nil bytes)
      alone (err e) = refl
      alone panic = refl

  fill_last_bytes-draw :
      (r : D) (input dest : List ℕ)
      → length dest < 8
      → fill_last_bytes rng r input dest ≡ draw (pieces (length dest)) r input
  unfolding fill_last_bytes draw_piece word_prefix draw
  fill_last_bytes-draw r input [] h = refl
  fill_last_bytes-draw r input (b ∷ dest) h =
      rw
        (
          pieces-short (length (b ∷ dest)) (omega arith) h,
          draw_one (length (b ∷ dest)) r input,
          lt→ltb 0 (length (b ∷ dest)) (omega arith),
        )
        refl

  -- Eight bytes, and what `fill` puts behind them.
  abbrev eight_then :
      (D → Outcome DrbgError (D × List ℕ))
      → Outcome DrbgError (ℕ × D)
      → Outcome DrbgError (D × List ℕ)
  eight_then fill word = do
    (x, r') ← word
    (r'', filled) ← fill r'
    ok (r'', to_le_bytes 8 x ++ filled)

  draw_behind : List ℕ → Outcome DrbgError (D × List ℕ) → Outcome DrbgError (D × List ℕ)
  draw_behind ws piece = do
    (r', bytes) ← piece
    (r'', more) ← draw ws r' []
    ok (r'', bytes ++ more)

  eight_then-draw :
      (ws : List ℕ) (fill : D → Outcome DrbgError (D × List ℕ)) (m : Outcome DrbgError (ℕ × D))
      → ((s : D) → fill s ≡ draw ws s [])
      → eight_then fill m ≡ draw_behind ws (word_prefix 8 8 m)
  unfolding draw_behind word_prefix to_le_bytes
  eight_then-draw ws fill (ok (x, r')) same = rw (same r') refl
  eight_then-draw ws fill (err e) same = refl
  eight_then-draw ws fill panic same = refl

  draw-eight :
      (ws : List ℕ) (r : D) (input : List ℕ) (fill : D → Outcome DrbgError (D × List ℕ))
      → ((s : D) → fill s ≡ draw ws s [])
      → eight_then fill (rng.next_u64 r input) ≡ draw (8 ∷ ws) r input
  unfolding draw draw_piece draw_behind
  draw-eight ws r input fill same = eight_then-draw ws fill (rng.next_u64 r input) same

  -- fill_bytes_via_next gives, whatever the slice held, the little-endian bytes of the words
  -- that the generator gives for its pieces of eight bytes and the shorter piece left over, one
  -- behind the other: the first bytes of a word of eight for a piece of five or more, and of a
  -- word of four for up to four, where only the first word is drawn with the additional input;
  -- it fails as the first draw that fails.
  pub fill_bytes_via_next-draw :
      (r : D) (input dest : List ℕ)
      → fill_bytes_via_next rng r input dest ≡ draw (pieces (length dest)) r input
  unfolding fill_bytes_via_next
  fill_bytes_via_next-draw r input [] = fill_last_bytes-draw r input [] (omega arith)
  fill_bytes_via_next-draw r input (a ∷ []) = fill_last_bytes-draw r input (a ∷ []) (omega arith)
  fill_bytes_via_next-draw r input (a ∷ b ∷ []) =
      fill_last_bytes-draw r input (a ∷ b ∷ []) (omega arith)
  fill_bytes_via_next-draw r input (a ∷ b ∷ c ∷ []) =
      fill_last_bytes-draw r input (a ∷ b ∷ c ∷ []) (omega arith)
  fill_bytes_via_next-draw r input (a ∷ b ∷ c ∷ d ∷ []) =
      fill_last_bytes-draw r input (a ∷ b ∷ c ∷ d ∷ []) (omega arith)
  fill_bytes_via_next-draw r input (a ∷ b ∷ c ∷ d ∷ e ∷ []) =
      fill_last_bytes-draw r input (a ∷ b ∷ c ∷ d ∷ e ∷ []) (omega arith)
  fill_bytes_via_next-draw r input (a ∷ b ∷ c ∷ d ∷ e ∷ f ∷ []) =
      fill_last_bytes-draw r input (a ∷ b ∷ c ∷ d ∷ e ∷ f ∷ []) (omega arith)
  fill_bytes_via_next-draw r input (a ∷ b ∷ c ∷ d ∷ e ∷ f ∷ g ∷ []) =
      fill_last_bytes-draw r input (a ∷ b ∷ c ∷ d ∷ e ∷ f ∷ g ∷ []) (omega arith)
  fill_bytes_via_next-draw r input (a ∷ b ∷ c ∷ d ∷ e ∷ f ∷ g ∷ h ∷ dest) =
      draw-eight (pieces (length dest)) r input (λ s. fill_bytes_via_next rng s [] dest)
        (λ s. fill_bytes_via_next-draw s [] dest)
      ∙ ap (λ ws. draw ws r input)
          (sym (
            pieces-eight (length (a ∷ b ∷ c ∷ d ∷ e ∷ f ∷ g ∷ h ∷ dest)) (length dest)
              (omega arith)))

  -- If the generator fills a slice of eight bytes, next_u64_via_fill succeeds with a number
  -- whose eight little-endian bytes are those, and with the generator that the filling left.
  pub next_u64_via_fill-eq :
      (r r' : D) (input buf : List ℕ)
      → rng.fill_bytes r input (replicate 8 0) ≡ ok (r', buf)
      → length buf ≡ 8
      → All IsByte buf
      → (x : ℕ) × (next_u64_via_fill rng r input ≡ ok (x, r')) × (to_le_bytes 8 x ≡ buf)
  unfolding next_u64_via_fill
  next_u64_via_fill-eq r r' input buf e len b =
      (from_le_bytes buf, (rw e refl), (rw (← len) (to_le_bytes-from_le_bytes buf b)))
