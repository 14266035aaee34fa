-- ===== src/Derive/EnumLaws.antt =====
-- The laws of the code generated for enums (marshalable-derive/src/lib.rs), over those of the
-- variants' fields; the selectors differ, which the Rust compiler checks.
use tpm_rs.Prelude.{
  ℕ, ◌≤◌, ◌<◌, ◌≡◌, ◌≢◌, arith, List, [], ◌∷◌, ◌++◌, length, All, ◌==◌, Bool-cases, ◌⊎◌, inl, inr,
  ==_refl, ne→==,
}
use tpm_rs.Outcome.{ok, panic, >>=-eq-ok, >>=-ne-panic}
use tpm_rs.Marshal.Core.{IsByte}
use tpm_rs.Marshal.Lawful.{IsShort, Format}
use tpm_rs.Derive.Fields.{Fragment}
use tpm_rs.Derive.Laws.{LawfulFragment, wrote_at}
use tpm_rs.Derive.Enum.{
  Variants, no_variants, variant, variant_discriminant, variant_marshal, variant_unmarshal,
}

-- The laws of a list of variants with the selectors `sels`: as those of a fragment, for the selector
-- that belongs to the value.
pub record LawfulVariants {ℓ} {E : Type ℓ} (c : Variants E) (f : Format E) (sels : List ℕ)
    : Type (ℓ ⊔ 1) where
  pub known : (P : ℕ → Type 0) → All P sels → (e : E) → P (c.discriminant e)
  pub encode_bytes : (e : E) → f.Valid e → All IsByte (f.encode e)
  pub marshal_fits :
      (e : E) (pre buffer : List ℕ)
      → f.Valid e
      → length (f.encode e) ≤ length buffer
      → c.marshal_arm e (length pre) (pre ++ buffer) ≡ wrote_at pre (f.encode e) buffer
  pub marshal_short :
      (e : E) (pre buffer : List ℕ)
      → f.Valid e
      → length buffer < length (f.encode e)
      → IsShort (c.marshal_arm e (length pre) (pre ++ buffer)).0
  pub unmarshal_encode :
      (e : E) (rest : List ℕ)
      → f.Valid e
      → c.unmarshal_chain (c.discriminant e) (f.encode e ++ rest) ≡ ok (e, rest)
  pub unmarshal_exact :
      (s : ℕ) (e : E) (buffer rest : List ℕ)
      → All IsByte buffer
      → c.unmarshal_chain s buffer ≡ ok (e, rest)
      → f.Valid e × (s ≡ c.discriminant e) × (buffer ≡ f.encode e ++ rest)
  pub unmarshal_total : (s : ℕ) (buffer : List ℕ) → c.unmarshal_chain s buffer ≢ panic

abbrev pub no_format : Format ⊥
no_format = record { Valid = λ e. ⊥; encode = λ e. absurd e }

pub no_variants-Lawful : LawfulVariants no_variants no_format []
no_variants-Lawful = record {
  known = λ P h e. absurd e;
  encode_bytes = λ e. absurd e;
  marshal_fits = λ e. absurd e;
  marshal_short = λ e. absurd e;
  unmarshal_encode = λ e. absurd e;
  unmarshal_exact = λ s e. absurd e;
  unmarshal_total = λ s buffer e. cc;
}

module _ {ℓ κ} {P : Type ℓ} {E : Type κ} (f : Format P) (g : Format E) where
  abbrev pub SumValid : P ⊎ E → Type 0
  SumValid (inl p) = f.Valid p
  SumValid (inr e) = g.Valid e

  abbrev pub sum_encode : P ⊎ E → List ℕ
  sum_encode (inl p) = f.encode p
  sum_encode (inr e) = g.encode e

  abbrev pub sum_format : Format (P ⊎ E)
  sum_format = record { Valid = SumValid; encode = sum_encode }

module _ {ℓ κ} {P : Type ℓ} {E : Type κ} {c : Fragment P} {k : Variants E} {f : Format P}
    {g : Format E} (sel : ℕ) (sels : List ℕ) (l : LawfulFragment c f) (r : LawfulVariants k g sels)
    (fresh : All (λ s. s ≢ sel) sels) where
  variant_known :
      (Q : ℕ → Type 0) → Q sel × All Q sels → (v : P ⊎ E) → Q (variant_discriminant sel c k v)
  unfolding variant_discriminant
  variant_known Q h (inl p) = h.0
  variant_known Q h (inr e) = r.known Q h.1 e

  variant_bytes : (v : P ⊎ E) → SumValid f g v → All IsByte (sum_encode f g v)
  variant_bytes (inl p) = l.encode_bytes p
  variant_bytes (inr e) = r.encode_bytes e

  variant-fits :
      (v : P ⊎ E) (pre buffer : List ℕ)
      → SumValid f g v
      → length (sum_encode f g v) ≤ length buffer
      → variant_marshal sel c k v (length pre) (pre ++ buffer)
        ≡ wrote_at pre (sum_encode f g v) buffer
  unfolding variant_marshal
  variant-fits (inl p) = l.marshal_fits p
  variant-fits (inr e) = r.marshal_fits e

  variant-IsShort :
      (v : P ⊎ E) (pre buffer : List ℕ)
      → SumValid f g v
      → length buffer < length (sum_encode f g v)
      → IsShort (variant_marshal sel c k v (length pre) (pre ++ buffer)).0
  unfolding variant_marshal
  variant-IsShort (inl p) = l.marshal_short p
  variant-IsShort (inr e) = r.marshal_short e

  variant_unmarshal-encode :
      (v : P ⊎ E) (rest : List ℕ)
      → SumValid f g v
      → variant_unmarshal sel c k (variant_discriminant sel c k v) (sum_encode f g v ++ rest)
        ≡ ok (v, rest)
  unfolding variant_unmarshal variant_discriminant
  variant_unmarshal-encode (inl p) rest h = rw (==_refl sel, l.unmarshal_encode p rest h)
  variant_unmarshal-encode (inr e) rest h =
      rw
        (ne→== (k.discriminant e) sel (r.known (λ s. s ≢ sel) fresh e), r.unmarshal_encode e rest h)

  variant_unmarshal-exact :
      (s : ℕ) (v : P ⊎ E) (buffer rest : List ℕ)
      → All IsByte buffer
      → variant_unmarshal sel c k s buffer ≡ ok (v, rest)
      → SumValid f g v × (s ≡ variant_discriminant sel c k v) × (buffer ≡ sum_encode f g v ++ rest)
  unfolding variant_unmarshal variant_discriminant
  variant_unmarshal-exact s v buffer rest b e = elim (Bool-cases (s == sel)) [
    | inl here ↦
        let ((p, end), read, done) = >>=-eq-ok (c.unmarshal buffer) _ (rw here at e) in
        let (h, split) = l.unmarshal_exact p buffer end b read in
        let same : inl p ≡ v = cc done in
        let end_eq : end ≡ rest = cc done in rw (← same) (h, (ground arith), cc (split, end_eq))
    | inr later ↦
        let ((x, end), read, done) = >>=-eq-ok (k.unmarshal_chain s buffer) _ (rw later at e) in
        let (h, s_eq, split) = r.unmarshal_exact s x buffer end b read in
        let same : inr x ≡ v = cc done in
        let end_eq : end ≡ rest = cc done in rw (← same) (h, s_eq, cc (split, end_eq))
  ]

  variant_unmarshal-total : (s : ℕ) (buffer : List ℕ) → variant_unmarshal sel c k s buffer ≢ panic
  unfolding variant_unmarshal
  variant_unmarshal-total s buffer = elim (Bool-cases (s == sel)) [
    | inl here ↦
        rw here (>>=-ne-panic (c.unmarshal buffer) _ (l.unmarshal_total buffer) (λ p e. cc))
    | inr later ↦
        rw later
          (>>=-ne-panic (k.unmarshal_chain s buffer) _ (r.unmarshal_total s buffer) (λ x e. cc))
  ]

  pub variant-Lawful : LawfulVariants (variant sel c k) (sum_format f g) (sel ∷ sels)
  variant-Lawful = record {
    known = variant_known;
    encode_bytes = variant_bytes;
    marshal_fits = variant-fits;
    marshal_short = variant-IsShort;
    unmarshal_encode = variant_unmarshal-encode;
    unmarshal_exact = variant_unmarshal-exact;
    unmarshal_total = variant_unmarshal-total;
  }
