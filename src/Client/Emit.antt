-- ===== src/Client/Emit.antt =====
-- How client/src/lib.rs puts a command together: steps that write at an offset of one buffer and may
-- fail with a `TssError`, which an error of the service becomes.
pub mod Laws
use tpm_rs.Prelude.{ℕ, ◌+◌, List, ◌++◌, length, take, drop, ltb, if◌then◌else◌}
use tpm_rs.Outcome.{Outcome, ok, err, panic, ◌>>=◌, map_err}
use tpm_rs.Errors.{TssError, from_rc}
use tpm_rs.Marshal.Core.{Marshalable}

abbrev pub Emitted : Type 0
Emitted = Outcome TssError ℕ × List ℕ

-- `x.try_marshal(buffer)?` where a `TssError` is returned.
unfoldable pub emit {ℓ} : {A : Type ℓ} → Marshalable A → A → List ℕ → Emitted
emit m a buffer = let (result, b) = m.try_marshal a buffer in (map_err from_rc result, b)

-- `written += step(&mut buffer[written..])?`
unfoldable pub emit_at : (List ℕ → Emitted) → ℕ → List ℕ → Emitted
emit_at step written buffer =
    if ltb (length buffer) written
    then (panic, buffer)
    else let (result, tail) = step (drop written buffer) in
      ((do n ← result; ok (written + n)), take written buffer ++ tail)

-- The statements after one that ends in `?`.
unfoldable pub and_then : Emitted → (ℕ → List ℕ → Emitted) → Emitted
and_then w next = elim w.0 [ ok n ↦ next n w.1 | err e ↦ (err e, w.1) | panic ↦ (panic, w.1) ]
