-- ===== src/Tpm2b/Simple.antt =====
-- marshalable-derive/src/lib.rs, `derive_tpm2b_simple`. The structs so marked differ in the capacity
-- MAX_BUFFER_SIZE and in nothing else, so it is an argument of their methods.
use tpm_rs.Prelude.{
  ℕ, ◌+◌, ◌%◌, ◌^◌, min, max, List, ◌++◌, Option, none, some, length, take, drop, replicate, ltb,
  ◌==◌, if◌then◌else◌,
}
use tpm_rs.Outcome.{Outcome, ok, err, panic, ◌>>=◌}
use tpm_rs.Errors.{TpmRcError, memory, size as size_error}
use tpm_rs.Marshal.Core.{Read, Written, Marshalable, get, prim}
use tpm_rs.Derive.Fields.{continue}

-- `struct { size: u16, buffer: [u8; capacity] }`
pub record Tpm2b : Type 0 where
  pub size : ℕ
  pub buffer : List ℕ

-- `&v[..n]`, which panics past the end.
unfoldable pub prefix {ℓ} : {E : Type ℓ} → ℕ → List ℕ → Outcome E (List ℕ)
prefix n v = if ltb (length v) n then panic else ok (take n v)

-- `dest[..src.len()].copy_from_slice(src)`, where `dest` has the room.
abbrev pub overlay : List ℕ → List ℕ → List ℕ
overlay src dest = src ++ drop (length src) dest

-- `dest[..n].copy_from_slice(src)`, which panics past the end of `dest` and on another length.
unfoldable pub copy_into {ℓ} : {E : Type ℓ} → ℕ → List ℕ → List ℕ → Outcome E (List ℕ)
copy_into n src dest =
    if ltb (length dest) n then panic else if length src == n then ok (overlay src dest) else panic

unfoldable pub get_buffer : Tpm2b → Outcome TpmRcError (List ℕ)
get_buffer t = prefix t.size t.buffer

-- `rest[..n].copy_from_slice(&field[..n])` behind the size, with both slices checked.
unfoldable pub copy_out : ℕ → ℕ → List ℕ → List ℕ → List ℕ → Written
copy_out used n field front rest =
    if ltb (length rest) n
    then (panic, front ++ rest)
    else if ltb (length field) n
    then (panic, front ++ rest)
    else (ok (used + n), front ++ overlay (take n field) rest)

module _ (capacity : ℕ) where
  unfoldable pub default : Tpm2b
  default = record { size = 0; buffer = replicate capacity 0 }

  unfoldable pub from_bytes : List ℕ → Outcome TpmRcError Tpm2b
  from_bytes bytes =
      if ltb (min 65535 capacity) (length bytes)
      then err size_error
      else ok
          (record { size = length bytes % 2 ^ 16; buffer = overlay bytes (replicate capacity 0) })

  -- The bytes that the size announces, if they are there and fit.
  unfoldable pub sized : ℕ → Option (List ℕ × List ℕ) → Read Tpm2b
  sized got_size none = err memory
  sized got_size (some (bytes, rest)) = if ltb capacity (length bytes) then err memory else (do
    buffer ← copy_into got_size bytes (replicate capacity 0)
    ok (record { size = got_size; buffer = buffer }, rest))

  unfoldable pub tpm2b_unmarshal : List ℕ → Read Tpm2b
  tpm2b_unmarshal buffer = do
    (got_size, rest) ← (prim 2).try_unmarshal buffer
    sized got_size (get got_size rest)

  -- The source takes the maximum of the capacity and of the room that is left.
  unfoldable pub tpm2b_copy : Tpm2b → ℕ → List ℕ → Written
  tpm2b_copy t used buffer =
      if ltb (max capacity (length (drop used buffer))) t.size
      then (err memory, buffer)
      else copy_out used t.size t.buffer (take used buffer) (drop used buffer)

  unfoldable pub tpm2b_marshal : Tpm2b → List ℕ → Written
  tpm2b_marshal t buffer = continue ((prim 2).try_marshal t.size buffer) (tpm2b_copy t)

  abbrev pub tpm2b : Marshalable Tpm2b
  tpm2b = record { try_unmarshal = tpm2b_unmarshal; try_marshal = tpm2b_marshal }
