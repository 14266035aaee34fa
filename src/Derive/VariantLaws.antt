-- ===== src/Derive/VariantLaws.antt =====
-- marshalable-derive/src/lib.rs: the laws of the code that is derived for an enum.
use tpm_rs.Prelude.{
  ℕ, ◌^◌, ◌≤◌, ◌<◌, ◌≡◌, ◌≢◌, sym, ap, ◌∙◌, arith, List, [], ◌++◌, length, drop, All, length-append,
  length-drop, All-append, All-append_right, append_assoc, ltb, Bool-cases, inl, inr, ltb→lt,
}
use tpm_rs.Outcome.{ok, panic, >>=-eq-ok, >>=-ne-panic}
use tpm_rs.Marshal.Core.{IsByte, prim}
use tpm_rs.Marshal.Lawful.{IsShort, wrote, Format, Lawful, prim_format, prim-Lawful}
use tpm_rs.Derive.Laws.{
  wrote_at-append, continue-wrote, continue-IsShort, write_at-fits, write_at-IsShort, via_format,
  start_wrote,
}
use tpm_rs.Derive.Enum.{
  MarshalableVariant, Variants, derive_variant, derived_variant_marshal, derived_variant_unmarshal,
  enum_marshal, enum_unmarshal, derive_enum,
}
use tpm_rs.Derive.EnumLaws.{LawfulVariants}

-- The laws of `MarshalableVariant`: those of `Lawful`, for the selector that belongs to the value.
pub record LawfulVariant {ℓ} {S : Type ℓ} (w : ℕ) (v : MarshalableVariant S) (f : Format S)
    : Type ℓ where
  pub discriminant_lt : (s : S) → v.discriminant s < 256 ^ w
  pub encode_bytes : (s : S) → f.Valid s → All IsByte (f.encode s)
  pub marshal_fits :
      (s : S) (buffer : List ℕ)
      → f.Valid s
      → length (f.encode s) ≤ length buffer
      → v.try_marshal_variant s buffer ≡ wrote (f.encode s) buffer
  pub marshal_short :
      (s : S) (buffer : List ℕ)
      → f.Valid s
      → length buffer < length (f.encode s)
      → IsShort (v.try_marshal_variant s buffer).0
  pub unmarshal_encode :
      (s : S) (rest : List ℕ)
      → f.Valid s
      → v.try_unmarshal_variant (v.discriminant s) (f.encode s ++ rest) ≡ ok (s, rest)
  pub unmarshal_exact :
      (x : ℕ) (s : S) (buffer rest : List ℕ)
      → All IsByte buffer
      → v.try_unmarshal_variant x buffer ≡ ok (s, rest)
      → f.Valid s × (x ≡ v.discriminant s) × (buffer ≡ f.encode s ++ rest)
  pub unmarshal_total : (x : ℕ) (buffer : List ℕ) → v.try_unmarshal_variant x buffer ≢ panic

module _ {ℓ κ} {S : Type ℓ} {E : Type κ} (to : S → E) (from : E → S)
    (from-to : (s : S) → from (to s) ≡ s) (to-from : (e : E) → to (from e) ≡ e) {c : Variants E}
    {f : Format E} {sels : List ℕ} (l : LawfulVariants c f sels) where
  derived_variant-fits :
      (s : S) (buffer : List ℕ)
      → f.Valid (to s)
      → length (f.encode (to s)) ≤ length buffer
      → derived_variant_marshal to from c s buffer ≡ wrote (f.encode (to s)) buffer
  unfolding derived_variant_marshal
  derived_variant-fits s buffer v h =
      l.marshal_fits (to s) [] buffer v h ∙ start_wrote (f.encode (to s)) buffer

  derived_variant-IsShort :
      (s : S) (buffer : List ℕ)
      → f.Valid (to s)
      → length buffer < length (f.encode (to s))
      → IsShort (derived_variant_marshal to from c s buffer).0
  unfolding derived_variant_marshal
  derived_variant-IsShort s buffer v h = l.marshal_short (to s) [] buffer v h

  derived_variant-encode :
      (s : S) (rest : List ℕ)
      → f.Valid (to s)
      → derived_variant_unmarshal to from c (c.discriminant (to s)) (f.encode (to s) ++ rest)
        ≡ ok (s, rest)
  unfolding derived_variant_unmarshal
  derived_variant-encode s rest v = rw (l.unmarshal_encode (to s) rest v, from-to s)

  derived_variant-exact :
      (x : ℕ) (s : S) (buffer rest : List ℕ)
      → All IsByte buffer
      → derived_variant_unmarshal to from c x buffer ≡ ok (s, rest)
      → f.Valid (to s) × (x ≡ c.discriminant (to s)) × (buffer ≡ f.encode (to s) ++ rest)
  unfolding derived_variant_unmarshal
  derived_variant-exact x s buffer rest b e =
      let ((r, end), read, done) = >>=-eq-ok (c.unmarshal_chain x buffer) _ e in
      let (v, x_eq, split) = l.unmarshal_exact x r buffer end b read in
      let same : from r ≡ s = cc done in
      let end_eq : end ≡ rest = cc done in
      let back : r ≡ to s = sym (to-from r) ∙ ap to same in
      (rw back at v, cc (x_eq, back), cc (split, back, end_eq))

  derived_variant-total :
      (x : ℕ) (buffer : List ℕ) → derived_variant_unmarshal to from c x buffer ≢ panic
  unfolding derived_variant_unmarshal
  derived_variant-total x buffer =
      >>=-ne-panic (c.unmarshal_chain x buffer) _ (l.unmarshal_total x buffer) (λ r e. cc)

  -- A derived enum is lawful, if its selectors fit their `w` bytes.
  pub derive_variant-Lawful :
      (w : ℕ)
      → All (λ x. x < 256 ^ w) sels
      → LawfulVariant w (derive_variant to from c) (via_format to f)
  derive_variant-Lawful w small = record {
    discriminant_lt = λ s. l.known (λ x. x < 256 ^ w) small (to s);
    encode_bytes = λ s. l.encode_bytes (to s);
    marshal_fits = derived_variant-fits;
    marshal_short = derived_variant-IsShort;
    unmarshal_encode = derived_variant-encode;
    unmarshal_exact = derived_variant-exact;
    unmarshal_total = derived_variant-total;
  }

-- The selector in front, and then the variant.
abbrev pub enum_format {ℓ} : {S : Type ℓ} → ℕ → MarshalableVariant S → Format S → Format S
enum_format w v f = record {
  Valid = f.Valid;
  encode = λ s. (prim_format w).encode (v.discriminant s) ++ f.encode s;
}

module _ {ℓ} {S : Type ℓ} {w : ℕ} {v : MarshalableVariant S} {f : Format S}
    (l : LawfulVariant w v f) where
  enum_marshal-fits :
      (s : S) (buffer : List ℕ)
      → f.Valid s
      → length ((enum_format w v f).encode s) ≤ length buffer
      → enum_marshal w v s buffer ≡ wrote ((enum_format w v f).encode s) buffer
  unfolding enum_marshal
  enum_marshal-fits s buffer h fits =
      let e = (prim_format w).encode (v.discriminant s) in
      let len = length-append e (f.encode s) in
      rw
        (
          write_at-fits ((prim w).try_marshal (v.discriminant s)) e [] buffer (
              (prim-Lawful w).marshal_fits (v.discriminant s) buffer (l.discriminant_lt s)
                (omega arith)),
          continue-wrote [] e buffer _,
        )
        (write_at-fits (v.try_marshal_variant s) (f.encode s) e (drop (length e) buffer) (
            l.marshal_fits s (drop (length e) buffer) h
              (omega (arith, length-drop (length e) buffer)))
          ∙ wrote_at-append [] e (f.encode s) buffer
          ∙ start_wrote (e ++ f.encode s) buffer)

  enum_marshal-IsShort :
      (s : S) (buffer : List ℕ)
      → f.Valid s
      → length buffer < length ((enum_format w v f).encode s)
      → IsShort (enum_marshal w v s buffer).0
  unfolding enum_marshal
  enum_marshal-IsShort s buffer h small =
      let x = v.discriminant s in
      let e = (prim_format w).encode x in
      let len = length-append e (f.encode s) in
      elim (Bool-cases (ltb (length buffer) (length e))) [
        | inl short ↦ continue-IsShort _ _ (
            write_at-IsShort ((prim w).try_marshal x) [] buffer
              ((prim-Lawful w).marshal_short x buffer (l.discriminant_lt s) (ltb→lt _ _ short)))
        | inr fits ↦
            rw
              (
                write_at-fits ((prim w).try_marshal x) e [] buffer
                    ((prim-Lawful w).marshal_fits x buffer (l.discriminant_lt s) (ground arith)),
                continue-wrote [] e buffer _,
              )
              (write_at-IsShort (v.try_marshal_variant s) e (drop (length e) buffer) (
                l.marshal_short s (drop (length e) buffer) h
                  (ground (arith, length-drop (length e) buffer))))
      ]

  enum_unmarshal-encode :
      (s : S) (rest : List ℕ)
      → f.Valid s
      → enum_unmarshal w v ((enum_format w v f).encode s ++ rest) ≡ ok (s, rest)
  unfolding enum_unmarshal
  enum_unmarshal-encode s rest h = rw (
    append_assoc,
    (prim-Lawful w).unmarshal_encode (v.discriminant s) (f.encode s ++ rest) (l.discriminant_lt s),
    l.unmarshal_encode s rest h,
  )

  enum_unmarshal-exact :
      (s : S) (buffer rest : List ℕ)
      → All IsByte buffer
      → enum_unmarshal w v buffer ≡ ok (s, rest)
      → f.Valid s × (buffer ≡ (enum_format w v f).encode s ++ rest)
  unfolding enum_unmarshal
  enum_unmarshal-exact s buffer rest b e =
      let ((x, mid), read, more) = >>=-eq-ok ((prim w).try_unmarshal buffer) _ e in
      let (vx, split) = (prim-Lawful w).unmarshal_exact x buffer mid b read in
      let (h, x_eq, split') =
        l.unmarshal_exact x s mid rest
          (All-append_right IsByte ((prim_format w).encode x) mid (rw split at b)) more in
      (h, cc (split, split', x_eq, append_assoc ((prim_format w).encode x) (f.encode s) rest))

  enum_unmarshal-total : (buffer : List ℕ) → enum_unmarshal w v buffer ≢ panic
  unfolding enum_unmarshal
  enum_unmarshal-total buffer =
      >>=-ne-panic ((prim w).try_unmarshal buffer) _ ((prim-Lawful w).unmarshal_total buffer)
        λ (x, mid). l.unmarshal_total x mid

  pub derive_enum-Lawful : Lawful (derive_enum w v) (enum_format w v f)
  derive_enum-Lawful = record {
    encode_bytes = λ s h.
        All-append IsByte ((prim_format w).encode (v.discriminant s)) (f.encode s)
          ((prim-Lawful w).encode_bytes (v.discriminant s) (l.discriminant_lt s))
          (l.encode_bytes s h);
    marshal_fits = enum_marshal-fits;
    marshal_short = enum_marshal-IsShort;
    unmarshal_encode = enum_unmarshal-encode;
    unmarshal_exact = enum_unmarshal-exact;
    unmarshal_total = enum_unmarshal-total;
  }
