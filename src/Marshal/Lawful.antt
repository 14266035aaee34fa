-- ===== src/Marshal/Lawful.antt =====
-- What a client of the trait `Marshalable` (marshalable/src/lib.rs) relies on, as a record of laws,
-- with the implementations for numbers, arrays and `()`.
use tpm_rs.Prelude.{
  some, ℕ, ◌^◌, ◌≤◌, ◌<◌, ◌≡◌, ◌≢◌, refl, arith, List, [], ◌++◌, length, drop, All, length-append,
  length-take, take-append, drop-append, take-append-drop, All-append_left, ltb, le→leb, lt→leb,
  Bool-cases, inl, inr, le→ltb,
}
use tpm_rs.Outcome.{Outcome, ok, err, panic, >>=-eq-ok}
use tpm_rs.Errors.{TpmRcError, memory}
use tpm_rs.Marshal.Core.{
  IsByte, Written, Marshalable, get, to_be_bytes, from_be_bytes, array_unmarshal, array_marshal,
  byte_array, prim_unmarshal, prim_marshal, prim, unit,
}
use tpm_rs.Marshal.Bytes.{
  length-to_be_bytes, to_be_bytes-IsByte, from_be_bytes-to_be_bytes, to_be_bytes-from_be_bytes,
  from_be_bytes-lt,
}

-- A writer that found too little room: `TpmRcError::Memory`, or a panic.
abbrev pub IsShort : Outcome TpmRcError ℕ → Type 0
IsShort (ok n) = ⊥
IsShort (err e) = e ≡ memory
IsShort panic = Unit

-- What a writer leaves that had the room for `e`: its size, and `e` over the front of the buffer.
abbrev pub wrote : List ℕ → List ℕ → Written
wrote e buffer = (ok (length e), e ++ drop (length e) buffer)

-- The wire format of a type: the values that it stands for, and the bytes of each.
pub record Format {ℓ} (A : Type ℓ) : Type (ℓ ⊔ 1) where
  pub Valid : A → Type 0
  pub encode : A → List ℕ

pub record Lawful {ℓ} {A : Type ℓ} (m : Marshalable A) (f : Format A) : Type ℓ where
  pub encode_bytes : (a : A) → f.Valid a → All IsByte (f.encode a)
  pub marshal_fits :
      (a : A) (buffer : List ℕ)
      → f.Valid a
      → length (f.encode a) ≤ length buffer
      → m.try_marshal a buffer ≡ wrote (f.encode a) buffer
  pub marshal_short :
      (a : A) (buffer : List ℕ)
      → f.Valid a
      → length buffer < length (f.encode a)
      → IsShort (m.try_marshal a buffer).0
  pub unmarshal_encode :
      (a : A) (rest : List ℕ) → f.Valid a → m.try_unmarshal (f.encode a ++ rest) ≡ ok (a, rest)
  pub unmarshal_exact :
      (a : A) (buffer rest : List ℕ)
      → All IsByte buffer
      → m.try_unmarshal buffer ≡ ok (a, rest)
      → f.Valid a × (buffer ≡ f.encode a ++ rest)
  pub unmarshal_total : (buffer : List ℕ) → m.try_unmarshal buffer ≢ panic

-- `get` of a front of the buffer, and of more than there is.
pub get-append : (xs ys : List ℕ) → get (length xs) (xs ++ ys) ≡ some (xs, ys)
unfolding get
get-append xs ys = rw (
  le→ltb (length (xs ++ ys)) (length xs) (omega (arith, length-append xs ys)),
  take-append xs ys,
  drop-append xs ys,
)

pub get-eq-some :
    (n : ℕ) (buffer mine rest : List ℕ)
    → get n buffer ≡ some (mine, rest)
    → (length mine ≡ n) × (buffer ≡ mine ++ rest)
unfolding get
get-eq-some n buffer mine rest h = elim (Bool-cases (ltb (length buffer) n)) [
  | inl short ↦ absurd (ground arith)
  | inr long ↦ ground (arith, length-take n buffer, take-append-drop n buffer)
]

pub array_marshal-fits :
    (x buffer : List ℕ) → length x ≤ length buffer → array_marshal x buffer ≡ wrote x buffer
unfolding array_marshal
array_marshal-fits x buffer h = rw (le→leb (length x) (length buffer) h)

-- An array that does not fit is refused with `Memory`, and the buffer is left alone.
pub array_marshal-short :
    (x buffer : List ℕ) → length buffer < length x → array_marshal x buffer ≡ (err memory, buffer)
unfolding array_marshal
array_marshal-short x buffer h = rw (lt→leb (length x) (length buffer) h)

array_marshal-IsShort :
    (x buffer : List ℕ) → length buffer < length x → IsShort (array_marshal x buffer).0
array_marshal-IsShort x buffer h = rw (array_marshal-short x buffer h) refl

pub array_unmarshal-append :
    (x rest : List ℕ) → array_unmarshal (length x) (x ++ rest) ≡ ok (x, rest)
unfolding array_unmarshal
array_unmarshal-append x rest = rw (get-append x rest, array_unmarshal)

pub array_unmarshal-exact :
    (m : ℕ) (x buffer rest : List ℕ)
    → array_unmarshal m buffer ≡ ok (x, rest)
    → (length x ≡ m) × (buffer ≡ x ++ rest)
unfolding array_unmarshal
array_unmarshal-exact m x buffer rest h = get-eq-some m buffer x rest (ground arith)

pub array_unmarshal-ne-panic : (m : ℕ) (buffer : List ℕ) → array_unmarshal m buffer ≢ panic
unfolding array_unmarshal
array_unmarshal-ne-panic m buffer h = ground arith

array_unmarshal-encode :
    (m : ℕ) (x rest : List ℕ) → length x ≡ m → array_unmarshal m (x ++ rest) ≡ ok (x, rest)
array_unmarshal-encode m x rest e = rw (← e) (array_unmarshal-append x rest)

array_unmarshal-Valid :
    (m : ℕ) (x buffer rest : List ℕ)
    → All IsByte buffer
    → array_unmarshal m buffer ≡ ok (x, rest)
    → ((length x ≡ m) × All IsByte x) × (buffer ≡ x ++ rest)
array_unmarshal-Valid m x buffer rest b h =
    let (n, e) = array_unmarshal-exact m x buffer rest h in
    ((n, All-append_left IsByte x rest (rw e at b)), e)

abbrev pub byte_array_format : ℕ → Format (List ℕ)
byte_array_format m = record { Valid = λ x. (length x ≡ m) × All IsByte x; encode = λ x. x }

pub byte_array-Lawful : (m : ℕ) → Lawful (byte_array m) (byte_array_format m)
byte_array-Lawful m = record {
  encode_bytes = λ x v. v.1;
  marshal_fits = λ x buffer v. array_marshal-fits x buffer;
  marshal_short = λ x buffer v. array_marshal-IsShort x buffer;
  unmarshal_encode = λ x rest v. array_unmarshal-encode m x rest v.0;
  unmarshal_exact = λ x buffer rest b h. array_unmarshal-Valid m x buffer rest b h;
  unmarshal_total = array_unmarshal-ne-panic m;
}

prim_unmarshal-encode :
    (w n : ℕ) (rest : List ℕ)
    → n < 256 ^ w
    → prim_unmarshal w (to_be_bytes w n ++ rest) ≡ ok (n, rest)
unfolding prim_unmarshal
prim_unmarshal-encode w n rest h =
    let read =
      (byte_array-Lawful w).unmarshal_encode (to_be_bytes w n) rest
        (length-to_be_bytes w n, to_be_bytes-IsByte w n) in
    ground (arith, read, from_be_bytes-to_be_bytes w n h)

prim_unmarshal-exact :
    (w n : ℕ) (buffer rest : List ℕ)
    → All IsByte buffer
    → prim_unmarshal w buffer ≡ ok (n, rest)
    → (n < 256 ^ w) × (buffer ≡ to_be_bytes w n ++ rest)
unfolding prim_unmarshal
prim_unmarshal-exact w n buffer rest b h =
    let ((x, rest'), r, e) = >>=-eq-ok (array_unmarshal w buffer) _ h in
    let ((len, bytes), split) = (byte_array-Lawful w).unmarshal_exact x buffer rest' b r in
    let value : from_be_bytes x ≡ n = cc e in
    (
      (let bound = from_be_bytes-lt x bytes in rw (value, len) at bound),
      cc (split, to_be_bytes-from_be_bytes x bytes, len, e),
    )

prim_unmarshal-ne-panic : (w : ℕ) (buffer : List ℕ) → prim_unmarshal w buffer ≢ panic
unfolding prim_unmarshal
prim_unmarshal-ne-panic w buffer h = ground (arith, array_unmarshal-ne-panic w buffer)

abbrev prim_marshal-fits :
    (w n : ℕ) (buffer : List ℕ)
    → length (to_be_bytes w n) ≤ length buffer
    → prim_marshal w n buffer ≡ wrote (to_be_bytes w n) buffer
unfolding prim_marshal
prim_marshal-fits w n buffer h = array_marshal-fits (to_be_bytes w n) buffer h

prim_marshal-IsShort :
    (w n : ℕ) (buffer : List ℕ)
    → length buffer < length (to_be_bytes w n)
    → IsShort (prim_marshal w n buffer).0
unfolding prim_marshal
prim_marshal-IsShort w n buffer h = rw (array_marshal-short (to_be_bytes w n) buffer h) refl

abbrev pub prim_format : ℕ → Format ℕ
prim_format w = record { Valid = λ n. n < 256 ^ w; encode = to_be_bytes w }

pub prim-Lawful : (w : ℕ) → Lawful (prim w) (prim_format w)
prim-Lawful w = record {
  encode_bytes = λ n v. to_be_bytes-IsByte w n;
  marshal_fits = λ n buffer v. prim_marshal-fits w n buffer;
  marshal_short = λ n buffer v. prim_marshal-IsShort w n buffer;
  unmarshal_encode = λ n rest v. prim_unmarshal-encode w n rest v;
  unmarshal_exact = λ n buffer rest b h. prim_unmarshal-exact w n buffer rest b h;
  unmarshal_total = prim_unmarshal-ne-panic w;
}

unit_unmarshal-exact :
    (x : Unit {0}) (buffer rest : List ℕ)
    → unit.try_unmarshal buffer ≡ ok (x, rest)
    → Unit {0} × (buffer ≡ rest)
unit_unmarshal-exact x buffer rest h = (tt, cc h)

unit_unmarshal-ne-panic : (buffer : List ℕ) → unit.try_unmarshal buffer ≢ panic
unit_unmarshal-ne-panic buffer h = cc

none_short : (n : ℕ) → n < 0 → ⊥
none_short n h = omega arith

abbrev pub unit_format : Format (Unit {0})
unit_format = record { Valid = λ x. Unit {0}; encode = λ x. [] }

pub unit-Lawful : Lawful unit unit_format
unit-Lawful = record {
  encode_bytes = λ x v. tt;
  marshal_fits = λ x buffer v h. refl;
  marshal_short = λ x buffer v h. none_short (length buffer) h;
  unmarshal_encode = λ x rest v. refl;
  unmarshal_exact = λ x buffer rest b h. unit_unmarshal-exact x buffer rest h;
  unmarshal_total = unit_unmarshal-ne-panic;
}
