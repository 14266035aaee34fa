-- ===== src/Derive/Enum.antt =====
-- marshalable-derive/src/lib.rs: the code generated for enums. The enum is read as the sum of its
-- variants in the order of declaration, each with its selector; `derive_variant` and `derive_enum`
-- go over to the data type.
use tpm_rs.Prelude.{ℕ, List, ◌⊎◌, inl, inr, ◌==◌, if◌then◌else◌}
use tpm_rs.Outcome.{ok, err, ◌>>=◌}
use tpm_rs.Errors.{selector}
use tpm_rs.Marshal.Core.{Read, Written, Marshalable, prim}
use tpm_rs.Derive.Fields.{Fragment, write_at, continue}

-- The trait `MarshalableVariant`, with the `discriminant` of its supertrait.
pub record MarshalableVariant {ℓ} (E : Type ℓ) : Type ℓ where
  pub discriminant : E → ℕ
  pub try_unmarshal_variant : ℕ → List ℕ → Read E
  pub try_marshal_variant : E → List ℕ → Written

-- The code of the variants that are left: the arms of the `match` that marshals, and the chain of
-- `if selector == … { … return Ok(…); }` that unmarshals.
pub record Variants {ℓ} (E : Type ℓ) : Type ℓ where
  pub discriminant : E → ℕ
  pub marshal_arm : E → ℕ → List ℕ → Written
  pub unmarshal_chain : ℕ → List ℕ → Read E

-- Behind the last variant stands `Err(TpmRcError::Selector)`.
abbrev pub no_variants : Variants ⊥
no_variants = record {
  discriminant = λ e. absurd e;
  marshal_arm = λ e. absurd e;
  unmarshal_chain = λ sel buffer. err selector;
}

module _ {ℓ κ} {P : Type ℓ} {E : Type κ} (sel : ℕ) (c : Fragment P) (rest : Variants E) where
  unfoldable pub variant_discriminant : P ⊎ E → ℕ
  variant_discriminant (inl p) = sel
  variant_discriminant (inr e) = rest.discriminant e

  unfoldable pub variant_marshal : P ⊎ E → ℕ → List ℕ → Written
  variant_marshal (inl p) = c.marshal_from p
  variant_marshal (inr e) = rest.marshal_arm e

  unfoldable pub variant_unmarshal : ℕ → List ℕ → Read (P ⊎ E)
  variant_unmarshal s buffer =
      if s == sel
      then (do (p, buffer') ← c.unmarshal buffer; ok (inl p, buffer'))
      else (do (e, buffer') ← rest.unmarshal_chain s buffer; ok (inr e, buffer'))

  abbrev pub variant : Variants (P ⊎ E)
  variant = record {
    discriminant = variant_discriminant;
    marshal_arm = variant_marshal;
    unmarshal_chain = variant_unmarshal;
  }

module _ {ℓ κ} {S : Type ℓ} {E : Type κ} (to : S → E) (from : E → S) (vs : Variants E) where
  unfoldable pub derived_variant_marshal : S → List ℕ → Written
  derived_variant_marshal s buffer = vs.marshal_arm (to s) 0 buffer

  unfoldable pub derived_variant_unmarshal : ℕ → List ℕ → Read S
  derived_variant_unmarshal s buffer = do (e, rest) ← vs.unmarshal_chain s buffer; ok (from e, rest)

  -- `impl MarshalableVariant for S`
  abbrev pub derive_variant : MarshalableVariant S
  derive_variant = record {
    discriminant = λ s. vs.discriminant (to s);
    try_unmarshal_variant = derived_variant_unmarshal;
    try_marshal_variant = derived_variant_marshal;
  }

module _ {ℓ} {S : Type ℓ} (w : ℕ) (v : MarshalableVariant S) where
  unfoldable pub enum_marshal : S → List ℕ → Written
  enum_marshal s buffer =
      continue (write_at ((prim w).try_marshal (v.discriminant s)) 0 buffer)
        (write_at (v.try_marshal_variant s))

  unfoldable pub enum_unmarshal : List ℕ → Read S
  enum_unmarshal buffer = do
    (s, rest) ← (prim w).try_unmarshal buffer
    v.try_unmarshal_variant s rest

  -- `impl Marshalable for S`, with a selector of `w` bytes.
  abbrev pub derive_enum : Marshalable S
  derive_enum = record { try_unmarshal = enum_unmarshal; try_marshal = enum_marshal }
