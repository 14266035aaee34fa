-- ===== src/Tpm2b/Sized.antt =====
-- The sized buffers that are well formed, and their wire format (marshalable-derive/src/lib.rs).
use tpm_rs.Prelude.{
  ℕ, zero, suc, ◌-◌, ◌≤◌, ◌<◌, ◌≡◌, ◌^◌, ap, ◌∙◌, arith, List, ◌++◌, length, take, drop, replicate,
  All, length-append, length-take, length-drop, length-replicate, take-append, drop-append,
}
use tpm_rs.Marshal.Core.{IsByte}
use tpm_rs.Marshal.Lawful.{Format, prim_format}
use tpm_rs.Tpm2b.Simple.{Tpm2b, overlay}

-- The invariant of a sized buffer: the size is in range, the rest of the array is zero.
pub record IsSized (capacity : ℕ) (t : Tpm2b) : Type 0 where
  pub size_le : t.size ≤ capacity
  pub size_u16 : t.size < 2 ^ 16
  pub full : length t.buffer ≡ capacity
  pub bytes : All IsByte (take t.size t.buffer)
  pub zeros : drop t.size t.buffer ≡ replicate (capacity - t.size) 0

abbrev pub tpm2b_format : ℕ → Format Tpm2b
tpm2b_format capacity = record {
  Valid = IsSized capacity;
  encode = λ t. (prim_format 2).encode t.size ++ take t.size t.buffer;
}

abbrev pub zeros_of : ℕ → List ℕ
zeros_of m = replicate m 0

pub drop-replicate : (n m : ℕ) → drop n (zeros_of m) ≡ zeros_of (m - n)
drop-replicate zero m = ap zeros_of (omega arith)
drop-replicate (suc n) zero = ap zeros_of (let e : 0 ≡ 0 - suc n = omega arith in e)
drop-replicate (suc n) (suc m) =
    drop-replicate n m ∙ ap zeros_of (let e : m - n ≡ suc m - suc n = omega arith in e)

-- The value that a reader and `from_bytes` build.
pub overlay-IsSized :
    (capacity n : ℕ) (bytes : List ℕ)
    → length bytes ≡ n
    → length bytes ≤ capacity
    → n < 2 ^ 16
    → All IsByte bytes
    → IsSized capacity (record { size = n; buffer = overlay bytes (zeros_of capacity) })
overlay-IsSized capacity n bytes e h small b = rw (← e) (record {
  size_le = h;
  size_u16 = omega (arith, small, e);
  full = omega (
    arith,
    length-append bytes (drop (length bytes) (zeros_of capacity)),
    length-drop (length bytes) (zeros_of capacity),
    length-replicate {A = ℕ} capacity 0,
  );
  bytes = rw (take-append bytes (drop (length bytes) (zeros_of capacity))) b;
  zeros = drop-append bytes _ ∙ drop-replicate (length bytes) capacity;
})

-- The bytes of the size.
abbrev pub size_bytes : Tpm2b → List ℕ
size_bytes t = (prim_format 2).encode t.size

module _ (capacity : ℕ) (t : Tpm2b) (v : IsSized capacity t) where
  pub length-content : length (take t.size t.buffer) ≡ t.size
  length-content = length-take t.size t.buffer (omega (arith, v.size_le, v.full))
