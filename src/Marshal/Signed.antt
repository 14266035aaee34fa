-- ===== src/Marshal/Signed.antt =====
-- marshalable/src/lib.rs, `impl_be_prim_marshalable!` for the signed types of `suc w` bytes: i8, i16,
-- i32 and i64, in two's complement.
use native.Mathlib.Nat.{pow-suc, one-le-pow, mod-eq_of_lt}
use tpm_rs.Prelude.{
  ℕ, suc, ◌+◌, ◌-◌, ◌*◌, ◌%◌, ◌^◌, ◌≤◌, ◌<◌, ◌≡◌, ◌≢◌, ◌∙◌, sym, ap, ap₂, refl, arith, List, ◌++◌,
  All, ltb, lt→ltb, le→ltb, if◌then◌else◌, Bool-cases, inl, inr,
}
use tpm_rs.Outcome.{ok, panic, ◌>>=◌, >>=-eq-ok, >>=-ne-panic}
use tpm_rs.Marshal.Core.{
  IsByte, Read, Written, Marshalable, to_be_bytes, prim_unmarshal, prim_marshal,
}
use tpm_rs.Marshal.Lawful.{Format, Lawful, prim-Lawful}

-- `negsuc n` is -1 - n.
pub data ℤ : Type 0 where
  pos : ℕ → ℤ
  negsuc : ℕ → ℤ

-- Half of the numbers of `suc w` bytes.
abbrev pub half : ℕ → ℕ
half w = 128 * 256 ^ w

abbrev pub word_of : ℕ → ℤ → ℕ
word_of w (pos n) = n % 256 ^ suc w
word_of w (negsuc n) = 256 ^ suc w - 1 - n % 256 ^ suc w

abbrev pub number_of : ℕ → ℕ → ℤ
number_of w n = if ltb n (half w) then pos n else negsuc (256 ^ suc w - 1 - n)

unfoldable pub signed_unmarshal : ℕ → List ℕ → Read ℤ
signed_unmarshal w buffer = do (n, rest) ← prim_unmarshal (suc w) buffer; ok (number_of w n, rest)

unfoldable pub signed_marshal : ℕ → ℤ → List ℕ → Written
signed_marshal w z buffer = prim_marshal (suc w) (word_of w z) buffer

abbrev pub signed : ℕ → Marshalable ℤ
signed w = record { try_unmarshal = signed_unmarshal w; try_marshal = signed_marshal w }

-- The range of the type.
abbrev pub InRange : ℕ → ℤ → Type 0
InRange w (pos n) = n < half w
InRange w (negsuc n) = n < half w

abbrev pub signed_format : ℕ → Format ℤ
signed_format w = record { Valid = InRange w; encode = λ z. to_be_bytes (suc w) (word_of w z) }

two_halves : (w : ℕ) → 256 ^ suc w ≡ half w + half w
two_halves w = omega (arith, pow-suc 256 w)

positive_half : (w : ℕ) → 1 ≤ half w
positive_half w = let p : 1 ≤ 256 ^ w = one-le-pow w 256 (omega arith) in omega (arith, p)

word_of-lt : (w : ℕ) (z : ℤ) → InRange w z → word_of w z < 256 ^ suc w
word_of-lt w (pos n) h = omega (arith, h, two_halves w)
word_of-lt w (negsuc n) h = omega (arith, h, two_halves w, positive_half w)

kept_word : (w n : ℕ) → n < half w → n % 256 ^ suc w ≡ n
kept_word w n h = mod-eq_of_lt (omega (arith, h, two_halves w))

number_of-word_of : (w : ℕ) (z : ℤ) → InRange w z → number_of w (word_of w z) ≡ z
number_of-word_of w (pos n) h =
    let same : n % 256 ^ suc w ≡ n = kept_word w n h in rw (same, lt→ltb n (half w) h) refl
number_of-word_of w (negsuc n) h =
    let same : n % 256 ^ suc w ≡ n = kept_word w n h in
    let high : half w ≤ 256 ^ suc w - 1 - n = omega (arith, h, two_halves w) in
    let back : 256 ^ suc w - 1 - (256 ^ suc w - 1 - n) ≡ n = omega (arith, h, two_halves w) in
    rw (same, le→ltb (256 ^ suc w - 1 - n) (half w) high, back) refl

word_of-number_of :
    (w n : ℕ) → n < 256 ^ suc w → InRange w (number_of w n) × (word_of w (number_of w n) ≡ n)
word_of-number_of w n h = elim (Bool-cases (ltb n (half w))) [
  | inl low ↦ let below : n < half w = ground (arith, low) in rw low (below, kept_word w n below)
  | inr high ↦
      let above : half w ≤ n = ground (arith, high) in
      let under : 256 ^ suc w - 1 - n < half w = omega (arith, above, h, two_halves w) in
      rw high (under, omega (arith, kept_word w (256 ^ suc w - 1 - n) under, h))
]

signed_unmarshal-exact :
    (w : ℕ) (z : ℤ) (buffer rest : List ℕ)
    → All IsByte buffer
    → signed_unmarshal w buffer ≡ ok (z, rest)
    → InRange w z × (buffer ≡ to_be_bytes (suc w) (word_of w z) ++ rest)
unfolding signed_unmarshal
signed_unmarshal-exact w z buffer rest bytes h =
    let ((n, left), read, done) = >>=-eq-ok (prim_unmarshal (suc w) buffer) _ h in
    let (small, split) = (prim-Lawful (suc w)).unmarshal_exact n buffer left bytes read in
    let (in_range, word) = word_of-number_of w n small in
    let number : number_of w n ≡ z = cc done in
    let end : left ≡ rest = cc done in
    (
      rw number at in_range,
      split ∙ ap₂ (λ m r. to_be_bytes (suc w) m ++ r) (sym word ∙ ap (word_of w) number) end,
    )

signed_unmarshal-encode :
    (w : ℕ) (z : ℤ) (rest : List ℕ)
    → InRange w z
    → signed_unmarshal w (to_be_bytes (suc w) (word_of w z) ++ rest) ≡ ok (z, rest)
unfolding signed_unmarshal
signed_unmarshal-encode w z rest h =
    rw
      (
        signed_unmarshal,
        (prim-Lawful (suc w)).unmarshal_encode (word_of w z) rest (word_of-lt w z h),
        number_of-word_of w z h,
      )
      refl

signed_unmarshal-ne-panic : (w : ℕ) (buffer : List ℕ) → signed_unmarshal w buffer ≢ panic
unfolding signed_unmarshal
signed_unmarshal-ne-panic w buffer =
    >>=-ne-panic (prim_unmarshal (suc w) buffer) _ ((prim-Lawful (suc w)).unmarshal_total buffer)
      λ r e. cc

pub signed-Lawful : (w : ℕ) → Lawful (signed w) (signed_format w)
unfolding signed_marshal
signed-Lawful w = record {
  encode_bytes = λ z h. (prim-Lawful (suc w)).encode_bytes (word_of w z) (word_of-lt w z h);
  marshal_fits =
      λ z buffer h. (prim-Lawful (suc w)).marshal_fits (word_of w z) buffer (word_of-lt w z h);
  marshal_short =
      λ z buffer h. (prim-Lawful (suc w)).marshal_short (word_of w z) buffer (word_of-lt w z h);
  unmarshal_encode = signed_unmarshal-encode w;
  unmarshal_exact = signed_unmarshal-exact w;
  unmarshal_total = signed_unmarshal-ne-panic w;
}
