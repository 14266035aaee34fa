-- ===== src/Client/Emit/Laws.antt =====
-- client/src/lib.rs: what the steps of a command leave in its buffer, when it has the room.
use tpm_rs.Prelude.{
  ℕ, ◌+◌, ◌^◌, ◌<◌, ◌≤◌, ◌≡◌, refl, arith, List, ◌++◌, length, drop, le→ltb, length-append,
  take-append, drop-append, append_assoc, length-drop, drop-drop,
}
use tpm_rs.Outcome.{ok}
use tpm_rs.Marshal.Core.{Marshalable}
use tpm_rs.Marshal.Lawful.{Format, Lawful}
use tpm_rs.Client.Emit.{Emitted, emit, emit_at, and_then}

-- The bytes stand over the front of the buffer.
abbrev pub filled : List ℕ → List ℕ → Emitted
filled e buffer = (ok (length e), e ++ drop (length e) buffer)

-- A step that writes these bytes wherever they fit; no buffer has 2^32 bytes.
abbrev pub Writes : (List ℕ → Emitted) → List ℕ → Type 0
Writes step e =
    (buffer : List ℕ)
    → length buffer < 2 ^ 32
    → length e ≤ length buffer
    → step buffer ≡ filled e buffer

pub emit-Writes {ℓ} :
    {A : Type ℓ} {m : Marshalable A} {f : Format A}
    → Lawful m f
    → (a : A) → f.Valid a
    → Writes (emit m a) (f.encode a)
unfolding emit
emit-Writes lawful a valid buffer small room =
    rw (emit, lawful.marshal_fits a buffer valid room) refl

-- A step behind the bytes that stand already.
pub emit_at-filled :
    (step : List ℕ → Emitted) (pre e buffer : List ℕ)
    → Writes step e
    → length buffer < 2 ^ 32
    → length (pre ++ e) ≤ length buffer
    → emit_at step (length pre) (pre ++ drop (length pre) buffer) ≡ filled (pre ++ e) buffer
unfolding emit_at
emit_at-filled step pre e buffer writes small room =
    let total : length (pre ++ e) ≡ length pre + length e = length-append pre e in
    let tail = drop (length pre) buffer in
    let tail_small : length tail < 2 ^ 32 = omega (arith, length-drop (length pre) buffer, small) in
    let tail_room : length e ≤ length tail =
      omega (arith, length-drop (length pre) buffer, total, room) in
    rw
      (
        emit_at,
        le→ltb (length (pre ++ tail)) (length pre) (omega (arith, length-append pre tail)),
        drop-append pre tail,
        take-append pre tail,
        writes tail tail_small tail_room,
        drop-drop (length pre) (length e) buffer,
        total,
        append_assoc pre e (drop (length pre + length e) buffer),
      )
      refl

-- Three steps behind a first one, and what follows them.
pub and_then-filled :
    (first : Emitted) (s1 s2 s3 : List ℕ → Emitted) (next : ℕ → List ℕ → Emitted)
    (e a b c buffer : List ℕ)
    → first ≡ filled e buffer
    → Writes s1 a
    → Writes s2 b
    → Writes s3 c
    → length buffer < 2 ^ 32
    → length (((e ++ a) ++ b) ++ c) ≤ length buffer
    → and_then first (λ n x.
      and_then
        (emit_at s1 n x)
        (λ n x. and_then (emit_at s2 n x) (λ n x. and_then (emit_at s3 n x) next)))
      ≡ next
          (length (((e ++ a) ++ b) ++ c))
          ((((e ++ a) ++ b) ++ c) ++ drop (length (((e ++ a) ++ b) ++ c)) buffer)
unfolding and_then
and_then-filled first s1 s2 s3 next e a b c buffer begun w1 w2 w3 small room =
    let n3 : length (((e ++ a) ++ b) ++ c) ≡ length ((e ++ a) ++ b) + length c =
      length-append ((e ++ a) ++ b) c in
    let n2 : length ((e ++ a) ++ b) ≡ length (e ++ a) + length b = length-append (e ++ a) b in
    rw
      (
        begun,
        emit_at-filled s1 e a buffer w1 small (omega (arith, n3, n2, room)),
        emit_at-filled s2 (e ++ a) b buffer w2 small (omega (arith, n3, room)),
        emit_at-filled s3 ((e ++ a) ++ b) c buffer w3 small room,
      )
      refl
