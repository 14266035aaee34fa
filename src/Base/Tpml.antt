-- ===== src/Base/Tpml.antt =====
-- base/src/lib.rs, the macro `impl_tpml!`: lists with a count, in an array of a fixed size. A value is
-- the pair of the two fields of the struct, which has its own name for the array.
pub mod Laws
use tpm_rs.Prelude.{
  ℕ, suc, ◌+◌, ◌%◌, ◌^◌, min, List, ◌++◌, length, take, drop, set, replicate, ltb, leb,
  if◌then◌else◌,
}
use tpm_rs.Outcome.{Outcome, ok, err}
use tpm_rs.Errors.{TpmRcError, size as size_error}

abbrev pub Tpml {ℓ} : Type ℓ → Type ℓ
Tpml A = ℕ × List A

module _ {ℓ} {A : Type ℓ} (capacity : ℕ) (d : A) where
  abbrev pub tpml_default : Tpml A
  tpml_default = (0, replicate capacity d)

  unfoldable pub tpml_new : List A → Outcome TpmRcError (Tpml A)
  tpml_new elements =
      if ltb capacity (length elements)
      then err size_error
      else ok (length elements % 2 ^ 32, elements ++ drop (length elements) (replicate capacity d))

module _ {ℓ} {A : Type ℓ} where
  -- The array has the room behind the test, and its size is no 32-bit maximum.
  unfoldable pub tpml_add : Tpml A → A → Outcome TpmRcError (Tpml A)
  tpml_add t element =
      if leb (length t.1) t.0 then err size_error else ok (t.0 + 1, set t.1 t.0 element)

  -- The accessor that has the name of the array.
  unfoldable pub tpml_elements : ℕ → Tpml A → List A
  tpml_elements capacity t = take (min t.0 capacity) t.1
