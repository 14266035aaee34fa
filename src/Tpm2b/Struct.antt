-- ===== src/Tpm2b/Struct.antt =====
-- marshalable-derive/src/lib.rs, `derive_tpm2b_struct`: a sized buffer that holds a marshalled
-- struct.
use tpm_rs.Prelude.{
  ℕ, ◌≤◌, ◌<◌, ◌≡◌, ◌%◌, ◌^◌, refl, arith, [], length, drop, replicate, length-append,
  length-replicate, take-append, le→ltb, append-nil,
}
use tpm_rs.Outcome.{Outcome, ok, ◌>>=◌}
use tpm_rs.Errors.{TpmRcError}
use tpm_rs.Marshal.Core.{Marshalable}
use tpm_rs.Marshal.Lawful.{Format, Lawful}
use tpm_rs.Tpm2b.Simple.{Tpm2b, prefix, overlay, default}
use tpm_rs.Tpm2b.SimpleLaws.{IsSized, overlay-IsSized}

module _ {ℓ} {A : Type ℓ} (m : Marshalable A) where
  unfoldable pub from_struct : ℕ → A → Outcome TpmRcError Tpm2b
  unfolding default
  from_struct capacity val =
      let x = default capacity in
      let (result, field) = m.try_marshal val x.buffer in
      do n ← result; ok (record { size = n % 2 ^ 16; buffer = field })

  unfoldable pub to_struct : Tpm2b → Outcome TpmRcError A
  to_struct t = do bytes ← prefix t.size t.buffer; (a, rest) ← m.try_unmarshal bytes; ok a

module _ {ℓ} {A : Type ℓ} {m : Marshalable A} {f : Format A} (l : Lawful m f) (capacity : ℕ) (a : A)
    (v : f.Valid a) where
  abbrev holder : Tpm2b
  holder = record {
    size = length (f.encode a);
    buffer = overlay (f.encode a) (replicate capacity 0);
  }

  from_struct-eq :
      length (f.encode a) ≤ capacity
      → length (f.encode a) < 2 ^ 16
      → from_struct m capacity a ≡ ok holder
  unfolding from_struct
  from_struct-eq h small = rw (
    l.marshal_fits a (replicate capacity 0) v (omega (arith, length-replicate {A = ℕ} capacity 0)),
    (let e : length (f.encode a) % 2 ^ 16 ≡ length (f.encode a) = omega arith in e),
  )

  to_struct-holder : to_struct m holder ≡ ok a
  unfolding to_struct prefix
  to_struct-holder = rw (
    le→ltb (length holder.buffer) (length (f.encode a)) (
        omega
          (arith, length-append (f.encode a) (drop (length (f.encode a)) (replicate capacity 0)))),
    take-append (f.encode a) (drop (length (f.encode a)) (replicate capacity 0)),
    (rw append-nil at (l.unmarshal_encode a [] v)),
  )

  -- For a type whose marshalling is lawful, a valid value whose encoding fits the capacity and
  -- a 16-bit size goes into a sized buffer that is well formed, and to_struct returns the value
  -- from it.
  pub from_struct-to_struct :
      length (f.encode a) ≤ capacity
      → length (f.encode a) < 2 ^ 16
      → (t : Tpm2b) × (from_struct m capacity a ≡ ok t)
        × IsSized capacity t
        × (to_struct m t ≡ ok a)
  from_struct-to_struct h small = (
    holder,
    from_struct-eq h small,
    overlay-IsSized capacity (length (f.encode a)) (f.encode a) refl h small (l.encode_bytes a v),
    to_struct-holder,
  )
