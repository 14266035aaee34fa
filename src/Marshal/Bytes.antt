-- ===== src/Marshal/Bytes.antt =====
-- `from_be_bytes` and `to_be_bytes` are inverse on numbers in range and on lists of bytes.
use tpm_rs.Prelude.{
  ℕ, zero, suc, ◌+◌, ◌*◌, ◌/◌, ◌%◌, ◌^◌, ◌<◌, ◌≡◌, refl, ap, ap₂, ◌∙◌, arith, List, [], ◌∷◌, ◌++◌,
  length, All, length-append, All-append, append_assoc, append-nil,
}
use native.Mathlib.Nat.{pow-succ'}
use tpm_rs.Marshal.Core.{IsByte, to_be_bytes, be_value, from_be_bytes}

pub length-to_be_bytes : (w n : ℕ) → length (to_be_bytes w n) ≡ w
unfolding to_be_bytes
length-to_be_bytes zero n = refl
length-to_be_bytes (suc w) n =
    omega (
      arith,
      length-append (to_be_bytes w (n / 256)) (n % 256 ∷ []),
      length-to_be_bytes w (n / 256),
    )

pub to_be_bytes-IsByte : (w n : ℕ) → All IsByte (to_be_bytes w n)
unfolding to_be_bytes
to_be_bytes-IsByte zero n = tt
to_be_bytes-IsByte (suc w) n =
    All-append IsByte (to_be_bytes w (n / 256)) _ (to_be_bytes-IsByte w (n / 256)) (omega arith, tt)

be_value-append :
    (acc : ℕ) (xs : List ℕ) (b : ℕ) → be_value acc (xs ++ b ∷ []) ≡ be_value acc xs * 256 + b
unfolding be_value
be_value-append acc [] b = refl
be_value-append acc (x ∷ xs) b = be_value-append (acc * 256 + x) xs b

pow_step : (w : ℕ) → 256 ^ suc w ≡ 256 * 256 ^ w
pow_step w = pow-succ' 256 w

-- A number below 256 ^ w is what from_be_bytes reads from its w big-endian bytes.
pub from_be_bytes-to_be_bytes : (w n : ℕ) → n < 256 ^ w → from_be_bytes (to_be_bytes w n) ≡ n
unfolding to_be_bytes
from_be_bytes-to_be_bytes zero n h = unfold be_value in omega arith
from_be_bytes-to_be_bytes (suc w) n h =
    rw be_value-append
      (omega (arith, pow_step w, from_be_bytes-to_be_bytes w (n / 256) (omega (arith, pow_step w))))

shift_byte :
    (w acc b : ℕ) (bs : List ℕ)
    → b < 256
    → to_be_bytes (suc w) (acc * 256 + b) ++ bs ≡ to_be_bytes w acc ++ b ∷ bs
unfolding to_be_bytes
shift_byte w acc b bs h =
    rw append_assoc (ap₂ (λ (n m : ℕ). to_be_bytes w n ++ m ∷ bs) (omega arith) (omega arith))

to_be_bytes-be_value :
    (bs : List ℕ) (w acc : ℕ)
    → All IsByte bs
    → to_be_bytes (w + length bs) (be_value acc bs) ≡ to_be_bytes w acc ++ bs
unfolding be_value
to_be_bytes-be_value [] w acc h = rw append-nil (ap (λ (k : ℕ). to_be_bytes k acc) (omega arith))
to_be_bytes-be_value (b ∷ bs) w acc h =
    ap (λ (k : ℕ). to_be_bytes k (be_value (acc * 256 + b) bs))
      (let e : w + suc (length bs) ≡ suc w + length bs = omega arith in e)
    ∙ to_be_bytes-be_value bs (suc w) (acc * 256 + b) h.1
    ∙ (unfold to_be_bytes in shift_byte w acc b bs h.0)

pub to_be_bytes-from_be_bytes :
    (bs : List ℕ) → All IsByte bs → to_be_bytes (length bs) (from_be_bytes bs) ≡ bs
to_be_bytes-from_be_bytes bs h =
    ap (λ (k : ℕ). to_be_bytes k (from_be_bytes bs))
      (let e : length bs ≡ 0 + length bs = omega arith in e)
    ∙ to_be_bytes-be_value bs 0 0 h
    ∙ (unfold to_be_bytes in refl)

be_value-lt :
    (bs : List ℕ) (w acc : ℕ)
    → All IsByte bs
    → acc < 256 ^ w
    → be_value acc bs < 256 ^ (w + length bs)
unfolding be_value
be_value-lt [] w acc h a =
    omega (arith, ap (λ (k : ℕ). 256 ^ k) (let e : w + 0 ≡ w = omega arith in e))
be_value-lt (b ∷ bs) w acc h a = omega (
  arith,
  be_value-lt bs (suc w) (acc * 256 + b) h.1 (omega (arith, pow_step w, h.0)),
  ap (λ (k : ℕ). 256 ^ k) (let e : w + suc (length bs) ≡ suc w + length bs = omega arith in e),
)

pub from_be_bytes-lt : (bs : List ℕ) → All IsByte bs → from_be_bytes bs < 256 ^ length bs
from_be_bytes-lt bs h = omega (
  arith,
  be_value-lt bs 0 0 h (omega arith),
  ap (λ (k : ℕ). 256 ^ k) (let e : 0 + length bs ≡ length bs = omega arith in e),
)
