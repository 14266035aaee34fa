-- ===== src/Tpm2b/FromBytes.antt =====
-- marshalable-derive/src/lib.rs: sized buffers from bytes (`from_bytes`).
use tpm_rs.Prelude.{
  ℕ, ◌≤◌, ◌<◌, ◌≡◌, ◌%◌, ◌^◌, min, refl, arith, List, length, drop, All, length-append, take-append,
  ◌⊎◌, lt→ltb, le→ltb,
}
use tpm_rs.Outcome.{ok, err}
use tpm_rs.Errors.{size as size_error}
use tpm_rs.Marshal.Core.{IsByte}
use tpm_rs.Tpm2b.Simple.{Tpm2b, prefix, overlay, get_buffer, from_bytes}
use tpm_rs.Tpm2b.SimpleLaws.{IsSized, zeros_of, overlay-IsSized}

-- Bytes that fit the capacity and a 16-bit size make a sized buffer that is well formed and whose
-- get_buffer returns them.
pub from_bytes-get_buffer :
    (capacity : ℕ) (bytes : List ℕ)
    → length bytes ≤ capacity
    → length bytes < 2 ^ 16
    → All IsByte bytes
    → (t : Tpm2b) × (from_bytes capacity bytes ≡ ok t)
      × IsSized capacity t
      × (get_buffer t ≡ ok bytes)
unfolding from_bytes get_buffer prefix
from_bytes-get_buffer capacity bytes h small b = (
  record { size = length bytes; buffer = overlay bytes (zeros_of capacity) },
  accepted,
  overlay-IsSized capacity (length bytes) bytes refl h small b,
  content,
)
  where
    accepted :
        from_bytes capacity bytes
        ≡ ok (record { size = length bytes; buffer = overlay bytes (zeros_of capacity) })
    accepted = rw (
      le→ltb (min 65535 capacity) (length bytes) (omega arith),
      (let e : length bytes % 2 ^ 16 ≡ length bytes = omega arith in e),
    )

    content :
        get_buffer (record { size = length bytes; buffer = overlay bytes (zeros_of capacity) })
        ≡ ok bytes
    content = rw (
      le→ltb (length (overlay bytes (zeros_of capacity))) (length bytes)
          (omega (arith, length-append bytes (drop (length bytes) (zeros_of capacity)))),
      take-append bytes (drop (length bytes) (zeros_of capacity)),
    )

-- Bytes that exceed the capacity or a 16-bit size are refused by from_bytes with Size.
pub from_bytes_too_long :
    (capacity : ℕ) (bytes : List ℕ)
    → (capacity < length bytes) ⊎ (2 ^ 16 ≤ length bytes)
    → from_bytes capacity bytes ≡ err size_error
unfolding from_bytes
from_bytes_too_long capacity bytes h = rw (lt→ltb (min 65535 capacity) (length bytes) (omega arith))
