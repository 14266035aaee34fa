-- ===== src/Marshal/RoundTrip.antt =====
-- Consequences of the laws of `Marshalable` (marshalable/src/lib.rs), without the format's encoding.
use tpm_rs.Prelude.{
  ℕ, ◌≤◌, ◌≡◌, ◌∙◌, ap, refl, arith, List, ◌++◌, length, drop, All, length-append, drop-append,
}
use tpm_rs.Outcome.{ok}
use tpm_rs.Marshal.Core.{IsByte, Marshalable}
use tpm_rs.Marshal.Lawful.{Format, Lawful}

module _ {ℓ} {A : Type ℓ} {m : Marshalable A} {f : Format A} (l : Lawful m f) where
  -- What a writer wrote is read back, and what stood behind it is left.
  pub unmarshal-marshal :
      (a : A) (buffer : List ℕ)
      → f.Valid a
      → length (f.encode a) ≤ length buffer
      → ((m.try_marshal a buffer).0 ≡ ok (length (f.encode a)))
        × (m.try_unmarshal (m.try_marshal a buffer).1 ≡ ok (a, drop (length (f.encode a)) buffer))
  unmarshal-marshal a buffer v fits =
      rw (l.marshal_fits a buffer v fits)
        (refl, l.unmarshal_encode a (drop (length (f.encode a)) buffer) v)

  -- What was read is the only form of its value: two buffers that are read as the same value begin
  -- with the same bytes, and writing it again over them changes none.
  pub marshal-unmarshal :
      (a : A) (buffer rest buffer' rest' : List ℕ)
      → All IsByte buffer
      → All IsByte buffer'
      → m.try_unmarshal buffer ≡ ok (a, rest)
      → m.try_unmarshal buffer' ≡ ok (a, rest')
      → (bytes : List ℕ) × (buffer ≡ bytes ++ rest)
        × (buffer' ≡ bytes ++ rest')
        × (m.try_marshal a buffer ≡ (ok (length bytes), buffer))
  marshal-unmarshal a buffer rest buffer' rest' b b' e e' =
      let (v, split) = l.unmarshal_exact a buffer rest b e in
      let (v', split') = l.unmarshal_exact a buffer' rest' b' e' in
      let len = length-append (f.encode a) rest in
      let len' : length buffer ≡ length (f.encode a ++ rest) = ap length split in
      let written : m.try_marshal a buffer ≡ (ok (length (f.encode a)), buffer) =
        l.marshal_fits a buffer v (omega arith) ∙ rw (split, drop-append (f.encode a) rest) refl in
      (f.encode a, split, split', written)
