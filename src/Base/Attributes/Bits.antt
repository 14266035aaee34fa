-- ===== src/Base/Attributes/Bits.antt =====
-- `&` and `|` on numbers as operations on the fields that the numbers are put together from.
use Prim.Native.Nat.{digits, bit_and-bitwise, bit_or-bitwise}
use mathlib.Core.Path.{ap}
use native.Mathlib.Nat.{pow-suc, one-le-pow}
use tpm_rs.Prelude.{
  ℕ, zero, suc, ◌+◌, ◌-◌, ◌*◌, ◌/◌, ◌%◌, ◌^◌, ◌≤◌, ◌<◌, ◌≡◌, refl, arith, min, max, bit_and, bit_or,
}

-- How an operation goes on by the lowest digit.
abbrev Stepwise : (ℕ → ℕ → ℕ) → (ℕ → ℕ → ℕ) → Type 0
Stepwise op f = (a b : ℕ) → op a b ≡ op (a / 2) (b / 2) * 2 + f (a % 2) (b % 2)

module _ (z : ℕ → ℕ) (f : ℕ → ℕ → ℕ) where
  -- Any count of digits that is large enough will do.
  recount : (n m a b : ℕ) → a ≤ n → a ≤ m → digits z f n a b ≡ digits z f m a b
  recount zero zero a b p q = refl
  recount zero (suc m) zero b p q = refl
  recount zero (suc m) (suc a) b p q = absurd (omega arith)
  recount (suc n) zero zero b p q = refl
  recount (suc n) zero (suc a) b p q = absurd (omega arith)
  recount (suc n) (suc m) zero b p q = refl
  recount (suc n) (suc m) (suc a) b p q =
      ap (λ (k : ℕ). k * 2 + f (suc a % 2) (b % 2))
        (recount n m (suc a / 2) (b / 2) (omega arith) (omega arith))

bit_and-Stepwise : Stepwise bit_and min
bit_and-Stepwise zero b = omega (arith, bit_and-bitwise 0 b, bit_and-bitwise 0 (b / 2))
bit_and-Stepwise (suc a) b = omega (
  arith,
  bit_and-bitwise (suc a) b,
  bit_and-bitwise (suc a / 2) (b / 2),
  recount (λ y. 0) min a (suc a / 2) (suc a / 2) (b / 2) (omega arith) (omega arith),
)

bit_or-Stepwise : Stepwise bit_or max
bit_or-Stepwise zero b = omega (arith, bit_or-bitwise 0 b, bit_or-bitwise 0 (b / 2))
bit_or-Stepwise (suc a) b = omega (
  arith,
  bit_or-bitwise (suc a) b,
  bit_or-bitwise (suc a / 2) (b / 2),
  recount (λ y. y) max a (suc a / 2) (suc a / 2) (b / 2) (omega arith) (omega arith),
)

double_pow : (a s : ℕ) → a * 2 ^ suc s ≡ 2 * (a * 2 ^ s)
double_pow a s = omega (arith, ap (λ (t : ℕ). a * t) (pow-suc 2 s))

-- An operation on digits works on the fields above and below bit `s` apart.
module _ (op f : ℕ → ℕ → ℕ) (stepwise : Stepwise op f) (nothing : op 0 0 ≡ 0) where
  fields_apart :
      (s a b l m : ℕ)
      → l < 2 ^ s
      → m < 2 ^ s
      → op (a * 2 ^ s + l) (b * 2 ^ s + m) ≡ op a b * 2 ^ s + op l m
  fields_apart zero a b l m p q =
      let l0 : l ≡ 0 = omega (arith, p) in
      let m0 : m ≡ 0 = omega (arith, q) in
      let a1 : a * 2 ^ 0 + l ≡ a = omega (arith, l0) in
      let b1 : b * 2 ^ 0 + m ≡ b = omega (arith, m0) in rw (a1, b1, l0, m0, nothing) (omega arith)
  fields_apart (suc s) a b l m p q =
      let two : 2 ^ suc s ≡ 2 * 2 ^ s = omega (arith, pow-suc 2 s) in
      let x : (a * 2 ^ suc s + l) / 2 ≡ a * 2 ^ s + l / 2 = omega (arith, double_pow a s) in
      let y : (b * 2 ^ suc s + m) / 2 ≡ b * 2 ^ s + m / 2 = omega (arith, double_pow b s) in
      let u : (a * 2 ^ suc s + l) % 2 ≡ l % 2 = omega (arith, double_pow a s) in
      let w : (b * 2 ^ suc s + m) % 2 ≡ m % 2 = omega (arith, double_pow b s) in
      let whole = stepwise (a * 2 ^ suc s + l) (b * 2 ^ suc s + m) in
      let below =
        fields_apart s a b (l / 2) (m / 2) (omega (arith, p, two)) (omega (arith, q, two)) in
      let whole' = rw (x, y, u, w, below) at whole in
      omega (arith, whole', stepwise l m, double_pow (op a b) s)

bit_and-zero_within : (n a : ℕ) → a ≤ n → bit_and a 0 ≡ 0
bit_and-zero_within n zero h = omega (arith, bit_and-bitwise 0 0)
bit_and-zero_within zero (suc a) h = absurd (omega arith)
bit_and-zero_within (suc n) (suc a) h =
    omega (arith, bit_and-Stepwise (suc a) 0, bit_and-zero_within n (suc a / 2) (omega arith))

bit_or-zero_within : (n a : ℕ) → a ≤ n → bit_or a 0 ≡ a
bit_or-zero_within n zero h = omega (arith, bit_or-bitwise 0 0)
bit_or-zero_within zero (suc a) h = absurd (omega arith)
bit_or-zero_within (suc n) (suc a) h =
    omega (arith, bit_or-Stepwise (suc a) 0, bit_or-zero_within n (suc a / 2) (omega arith))

bit_and-zero : (a : ℕ) → bit_and a 0 ≡ 0
bit_and-zero a = bit_and-zero_within a a (omega arith)

bit_or-zero : (a : ℕ) → bit_or a 0 ≡ a
bit_or-zero a = bit_or-zero_within a a (omega arith)

zero-bit_or : (b : ℕ) → bit_or 0 b ≡ b
zero-bit_or b = bit_or-bitwise 0 b

-- A mask of ones keeps what is below it.
bit_and-ones : (j x : ℕ) → x < 2 ^ j → bit_and x (2 ^ j - 1) ≡ x
bit_and-ones zero x h = let x0 : x ≡ 0 = omega (arith, h) in rw x0 (bit_and-zero 0)
bit_and-ones (suc j) x h =
    let two : 2 ^ suc j ≡ 2 * 2 ^ j = omega (arith, pow-suc 2 j) in
    let positive : 1 ≤ 2 ^ j = one-le-pow j 2 (omega arith) in
    let up : (2 ^ suc j - 1) / 2 ≡ 2 ^ j - 1 = omega (arith, two, positive) in
    let odd : (2 ^ suc j - 1) % 2 ≡ 1 = omega (arith, two, positive) in
    let whole = rw (up, odd) at (bit_and-Stepwise x (2 ^ suc j - 1)) in
    omega (arith, whole, bit_and-ones j (x / 2) (omega (arith, h, two)))

-- A number with the field `x` of `k` bits at bit `s`, below `h` and above `l`.
abbrev pub with_field : ℕ → ℕ → ℕ → ℕ → ℕ → ℕ
with_field k s h x l = (h * 2 ^ k + x) * 2 ^ s + l

module _ (k s h x l : ℕ) (x_fits : x < 2 ^ k) (l_fits : l < 2 ^ s) where
  positive_s : 0 < 2 ^ s
  positive_s = one-le-pow s 2 (omega arith)

  positive_k : 0 < 2 ^ k
  positive_k = one-le-pow k 2 (omega arith)

  pub field-kept : bit_and (with_field k s h x l) (with_field k s 0 (2 ^ k - 1) 0) ≡ x * 2 ^ s
  field-kept =
      let outer =
        fields_apart bit_and min bit_and-Stepwise (bit_and-zero 0) s (h * 2 ^ k + x)
          (0 * 2 ^ k + (2 ^ k - 1)) l 0 l_fits positive_s in
      let inner =
        fields_apart bit_and min bit_and-Stepwise (bit_and-zero 0) k h 0 x (2 ^ k - 1) x_fits
          (omega (arith, positive_k)) in
      rw (outer, inner, bit_and-zero h, bit_and-zero l, bit_and-ones k x x_fits) (omega arith)

  pub field-cleared :
      (j : ℕ)
      → h < 2 ^ j
      → bit_and (with_field k s h x l) (with_field k s (2 ^ j - 1) 0 (2 ^ s - 1))
        ≡ with_field k s h 0 l
  field-cleared j h_fits =
      let outer =
        fields_apart bit_and min bit_and-Stepwise (bit_and-zero 0) s (h * 2 ^ k + x)
          ((2 ^ j - 1) * 2 ^ k + 0) l (2 ^ s - 1) l_fits (omega (arith, positive_s)) in
      let inner =
        fields_apart bit_and min bit_and-Stepwise (bit_and-zero 0) k h (2 ^ j - 1) x 0 x_fits
          positive_k in
      rw (outer, inner, bit_and-ones j h h_fits, bit_and-zero x, bit_and-ones s l l_fits) refl

  pub field-put : bit_or (with_field k s h 0 l) (x * 2 ^ s + 0) ≡ with_field k s h x l
  field-put =
      let outer =
        fields_apart bit_or max bit_or-Stepwise (bit_or-zero 0) s (h * 2 ^ k + 0) (0 * 2 ^ k + x) l
          0 l_fits positive_s in
      let inner =
        fields_apart bit_or max bit_or-Stepwise (bit_or-zero 0) k h 0 0 x positive_k x_fits in
      let plain : 0 * 2 ^ k + x ≡ x = omega arith in
      rw (inner, plain, bit_or-zero h, zero-bit_or x, bit_or-zero l) at outer
