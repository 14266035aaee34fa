-- ===== src/Derive/Selectors.antt =====
-- What the code generated for enums (marshalable-derive/src/lib.rs) does with a selector that no
-- variant has.
use tpm_rs.Prelude.{ℕ, ◌≡◌, ◌≢◌, refl, List, [], ◌∷◌, All, ne→==}
use tpm_rs.Outcome.{err}
use tpm_rs.Errors.{selector}
use tpm_rs.Derive.Fields.{Fragment}
use tpm_rs.Derive.Enum.{
  Variants, no_variants, variant, variant_unmarshal, derived_variant_unmarshal,
}

-- That the code of some variants knows the selectors of a list and no others.
pub record KnowsOnly {ℓ} {E : Type ℓ} (c : Variants E) (sels : List ℕ) : Type ℓ where
  pub unknown :
      (s : ℕ) (buffer : List ℕ) → All (λ x. s ≢ x) sels → c.unmarshal_chain s buffer ≡ err selector

pub no_variants-KnowsOnly : KnowsOnly no_variants []
no_variants-KnowsOnly = record { unknown = λ s buffer h. refl }

pub variant-KnowsOnly {ℓ κ} :
    {P : Type ℓ} {E : Type κ} {rest : Variants E} (c : Fragment P) (sel : ℕ) (sels : List ℕ)
    → KnowsOnly rest sels
    → KnowsOnly (variant sel c rest) (sel ∷ sels)
unfolding variant_unmarshal
variant-KnowsOnly c sel sels k = record {
  unknown = λ s buffer h. rw (variant_unmarshal, ne→== s sel h.0, k.unknown s buffer h.1) refl;
}

pub derived-unknown {ℓ κ} :
    {S : Type ℓ} {E : Type κ} (to : S → E) (from : E → S) {c : Variants E} {sels : List ℕ}
    → KnowsOnly c sels
    → (s : ℕ) (buffer : List ℕ) → All (λ x. s ≢ x) sels
    → derived_variant_unmarshal to from c s buffer ≡ err selector
unfolding derived_variant_unmarshal
derived-unknown to from k s buffer h = rw (k.unknown s buffer h) refl
