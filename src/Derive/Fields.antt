-- ===== src/Derive/Fields.antt =====
-- marshalable-derive/src/lib.rs: the code generated for the fields of a struct. A `Fragment` is the
-- code of a run of fields: its writer works on the local `written` and on the buffer, its reader on
-- the `UnmarshalBuf`. `derive` wraps a fragment up as the two methods of the trait.
use tpm_rs.Prelude.{
  ℕ, zero, suc, ◌+◌, List, [], ◌∷◌, ◌++◌, length, take, drop, replicate, ltb, if◌then◌else◌,
}
use tpm_rs.Outcome.{ok, err, panic, ◌>>=◌}
use tpm_rs.Errors.{size}
use tpm_rs.Marshal.Core.{Read, Written, Marshalable, prim}

pub record Fragment {ℓ} (R : Type ℓ) : Type ℓ where
  pub marshal_from : R → ℕ → List ℕ → Written
  pub unmarshal : List ℕ → Read R

-- `written += x.try_marshal(&mut buffer[written..])?`; the slice panics past the end.
unfoldable pub write_at : (List ℕ → Written) → ℕ → List ℕ → Written
write_at m written buffer =
    if ltb (length buffer) written
    then (panic, buffer)
    else let (result, tail) = m (drop written buffer) in
      ((do n ← result; ok (written + n)), take written buffer ++ tail)

-- The statements after one that ends in `?`.
unfoldable pub continue : Written → (ℕ → List ℕ → Written) → Written
continue w next = elim w.0 [ ok n ↦ next n w.1 | err e ↦ (err e, w.1) | panic ↦ (panic, w.1) ]

module _ {ℓ} {A : Type ℓ} (m : Marshalable A) where
  -- A field that is no array.
  abbrev pub field : Fragment A
  field = record { marshal_from = λ a. write_at (m.try_marshal a); unmarshal = m.try_unmarshal }

  -- `for i in 0..count { written += self.name[i].try_marshal(&mut buffer[written..])?; }`, from the
  -- entries that are left; an index past the array panics.
  unfoldable pub marshal_entries : ℕ → List A → ℕ → List ℕ → Written
  marshal_entries zero xs written buffer = (ok written, buffer)
  marshal_entries (suc k) [] written buffer = (panic, buffer)
  marshal_entries (suc k) (x ∷ xs) written buffer =
      continue (write_at (m.try_marshal x) written buffer) (marshal_entries k xs)

  -- `for i in name.iter_mut().take(count) { *i = try_unmarshal(buffer)?; }`, over an array of `max`
  -- default entries.
  unfoldable pub unmarshal_entries : A → ℕ → ℕ → List ℕ → Read (List A)
  unmarshal_entries d zero max buffer = ok (replicate max d, buffer)
  unmarshal_entries d (suc k) zero buffer = ok ([], buffer)
  unmarshal_entries d (suc k) (suc max) buffer = do
    (x, rest) ← m.try_unmarshal buffer
    (xs, rest') ← unmarshal_entries d k max rest
    ok (x ∷ xs, rest')

  unfoldable pub counted_marshal : ℕ → ℕ × List A → ℕ → List ℕ → Written
  counted_marshal w v written buffer =
      continue (write_at ((prim w).try_marshal v.0) written buffer) (marshal_entries v.0 v.1)

  -- `if length > max { return Err(TpmRcError::Size); }`, and then the loop.
  unfoldable pub unmarshal_array : A → ℕ → ℕ → List ℕ → Read (List A)
  unmarshal_array d count max buffer =
      if ltb max count then err size else unmarshal_entries d count max buffer

  unfoldable pub counted_unmarshal : ℕ → ℕ → A → List ℕ → Read (ℕ × List A)
  counted_unmarshal w max d buffer = do
    (count, rest) ← (prim w).try_unmarshal buffer
    (xs, rest') ← unmarshal_array d count max rest
    ok ((count, xs), rest')

  -- A length field of `w` bytes, and behind it the array of `max` entries with the attribute
  -- `#[marshalable(length=…)]` that names it.
  abbrev pub counted : ℕ → ℕ → A → Fragment (ℕ × List A)
  counted w max d = record {
    marshal_from = counted_marshal w;
    unmarshal = counted_unmarshal w max d;
  }

module _ {ℓ κ} {A : Type ℓ} {B : Type κ} (f : Fragment A) (g : Fragment B) where
  unfoldable pub pair_marshal : A × B → ℕ → List ℕ → Written
  pair_marshal v written buffer = continue (f.marshal_from v.0 written buffer) (g.marshal_from v.1)

  unfoldable pub pair_unmarshal : List ℕ → Read (A × B)
  pair_unmarshal buffer = do
    (a, rest) ← f.unmarshal buffer
    (b, rest') ← g.unmarshal rest
    ok ((a, b), rest')

-- One field, and then the others.
infixr 6 ◌then◌
abbrev pub ◌then◌ {ℓ κ} : {A : Type ℓ} {B : Type κ} → Fragment A → Fragment B → Fragment (A × B)
f then g = record { marshal_from = pair_marshal f g; unmarshal = pair_unmarshal f g }

module _ {ℓ κ} {S : Type ℓ} {R : Type κ} (to : S → R) (from : R → S) (f : Fragment R) where
  unfoldable pub derived_marshal : S → List ℕ → Written
  derived_marshal s buffer = f.marshal_from (to s) 0 buffer

  unfoldable pub derived_unmarshal : List ℕ → Read S
  derived_unmarshal buffer = do (r, rest) ← f.unmarshal buffer; ok (from r, rest)

  -- The methods for the struct `S`, whose fields in order are `R`.
  abbrev pub derive : Marshalable S
  derive = record { try_unmarshal = derived_unmarshal; try_marshal = derived_marshal }
