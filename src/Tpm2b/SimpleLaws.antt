-- ===== src/Tpm2b/SimpleLaws.antt =====
-- The laws of the generated methods of sized buffers (marshalable-derive/src/lib.rs), with
-- `from_bytes`, `get_buffer` and a short output buffer.
use tpm_rs.Prelude.{
  ℕ, ◌+◌, ◌≤◌, ◌<◌, ◌≡◌, max, sym, ap, ◌∙◌, arith, List, [], ◌++◌, length, take, drop, ltb,
  length-append, length-drop, take-append, drop-append, All-append, Bool-cases, inl, inr, lt→ltb,
  le→ltb,
}
use tpm_rs.Outcome.{ok, panic}
use tpm_rs.Marshal.Core.{IsByte, Written}
use tpm_rs.Marshal.Bytes.{length-to_be_bytes}
use tpm_rs.Marshal.Lawful.{IsShort, wrote, Lawful, prim-Lawful}
use tpm_rs.Derive.Fields.{continue}
use tpm_rs.Derive.Laws.{continue-IsShort, wrote_at-append, start_wrote}
use tpm_rs.Tpm2b.Simple.{Tpm2b, overlay, copy_out, tpm2b_copy, tpm2b_marshal, tpm2b}
pub use tpm_rs.Tpm2b.Sized.{IsSized, tpm2b_format, zeros_of, overlay-IsSized}
use tpm_rs.Tpm2b.Sized.{size_bytes, length-content}
use tpm_rs.Tpm2b.ReadLaws.{unmarshal-encode, tpm2b_unmarshal-exact, tpm2b_unmarshal-total}

copy_out-fits :
    (n : ℕ) (field front rest : List ℕ)
    → n ≤ length field
    → n ≤ length rest
    → copy_out (length front) n field front rest
      ≡ (ok (length front + n), front ++ overlay (take n field) rest)
unfolding copy_out
copy_out-fits n field front rest h k = rw (le→ltb (length rest) n k, le→ltb (length field) n h)

copy_out-short :
    (used n : ℕ) (field front rest : List ℕ)
    → length rest < n
    → copy_out used n field front rest ≡ (panic, front ++ rest)
unfolding copy_out
copy_out-short used n field front rest h = rw (lt→ltb (length rest) n h)

module _ (capacity : ℕ) (t : Tpm2b) (v : IsSized capacity t) where
  copy-eq :
      (front rest : List ℕ)
      → tpm2b_copy capacity t (length front) (front ++ rest)
        ≡ copy_out (length front) t.size t.buffer front rest
  unfolding tpm2b_copy
  copy-eq front rest = rw (
    take-append front rest,
    drop-append front rest,
    le→ltb (max capacity (length rest)) t.size (omega (arith, v.size_le)),
  )

  -- Once the size is out, the bytes are copied behind it.
  marshal-eq :
      (buffer : List ℕ)
      → length (size_bytes t) ≤ length buffer
      → tpm2b_marshal capacity t buffer
        ≡ copy_out
            (length (size_bytes t))
            t.size
            t.buffer
            (size_bytes t)
            (drop (length (size_bytes t)) buffer)
  unfolding tpm2b_marshal continue
  marshal-eq buffer h =
      rw ((prim-Lawful 2).marshal_fits t.size buffer v.size_u16 h)
        (copy-eq (size_bytes t) (drop (length (size_bytes t)) buffer))

  marshal-fits :
      (buffer : List ℕ)
      → length ((tpm2b_format capacity).encode t) ≤ length buffer
      → tpm2b_marshal capacity t buffer ≡ wrote ((tpm2b_format capacity).encode t) buffer
  marshal-fits buffer h =
      let e = size_bytes t in
      let len = length-append e (take t.size t.buffer) in
      marshal-eq buffer (omega arith)
      ∙ copy_out-fits t.size t.buffer e (drop (length e) buffer) (omega (arith, v.size_le, v.full))
          (omega (arith, length-drop (length e) buffer, (length-content capacity t v)))
      ∙ ap
          (λ (n : ℕ).
            (let w : Written =
                (ok (length e + n), e ++ overlay (take t.size t.buffer) (drop (length e) buffer)) in
              w))
          (sym (length-content capacity t v))
      ∙ wrote_at-append [] e (take t.size t.buffer) buffer
      ∙ start_wrote (e ++ take t.size t.buffer) buffer

  -- Marshalling a well formed sized buffer into a buffer that has room for the two bytes of the
  -- size and not for the bytes behind it panics.
  pub marshal_panics :
      (buffer : List ℕ)
      → 2 ≤ length buffer
      → length buffer < 2 + t.size
      → (tpm2b_marshal capacity t buffer).0 ≡ panic
  marshal_panics buffer h short =
      let e = size_bytes t in
      let len : length e ≡ 2 = length-to_be_bytes 2 t.size in
      rw (
        marshal-eq buffer (omega arith),
        copy_out-short (length e) t.size t.buffer e (drop (length e) buffer)
            (omega (arith, length-drop (length e) buffer)),
      )

  marshal-IsShort :
      (buffer : List ℕ)
      → length buffer < length ((tpm2b_format capacity).encode t)
      → IsShort (tpm2b_marshal capacity t buffer).0
  marshal-IsShort buffer h = elim (Bool-cases (ltb (length buffer) 2)) [
    | inl short ↦
        unfold tpm2b_marshal in
        continue-IsShort _ _ (
          (prim-Lawful 2).marshal_short t.size buffer v.size_u16
            (ground (arith, length-to_be_bytes 2 t.size)))
    | inr fits ↦
        rw
          (marshal_panics buffer (ground arith) (
            ground (
              arith,
              length-append (size_bytes t) (take t.size t.buffer),
              length-to_be_bytes 2 t.size,
              (length-content capacity t v),
            )))
          tt
  ]

pub tpm2b-Lawful : (capacity : ℕ) → Lawful (tpm2b capacity) (tpm2b_format capacity)
tpm2b-Lawful capacity = record {
  encode_bytes = λ t v.
      All-append IsByte (size_bytes t) _ ((prim-Lawful 2).encode_bytes t.size v.size_u16) v.bytes;
  marshal_fits = λ t buffer v. marshal-fits capacity t v buffer;
  marshal_short = λ t buffer v. marshal-IsShort capacity t v buffer;
  unmarshal_encode = λ t rest v. unmarshal-encode capacity t v rest;
  unmarshal_exact = tpm2b_unmarshal-exact capacity;
  unmarshal_total = tpm2b_unmarshal-total capacity;
}
