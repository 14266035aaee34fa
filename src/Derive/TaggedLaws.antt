-- ===== src/Derive/TaggedLaws.antt =====
-- The laws of the hand-written impls of base/src/lib.rs that put a selector in front
-- (Derive/Tagged.antt).
use tpm_rs.Prelude.{
  ℕ, ◌^◌, ◌≤◌, ◌<◌, ◌≡◌, ◌≢◌, ◌∙◌, arith, List, ◌++◌, length, drop, All, length-append, refl,
  length-drop, All-append, All-append_right, append_assoc, ltb, Bool-cases, inl, inr, ltb→lt,
}
use tpm_rs.Outcome.{ok, panic, >>=-eq-ok, >>=-ne-panic}
use tpm_rs.Marshal.Core.{IsByte, prim}
use tpm_rs.Marshal.Lawful.{IsShort, Format, prim_format, prim-Lawful}
use tpm_rs.Derive.Fields.{Fragment, field, ◌then◌}
use tpm_rs.Derive.Laws.{
  LawfulFragment, wrote_at, wrote_at-append, continue-wrote, continue-IsShort, write_at-fits,
  write_at-IsShort, pair_format, field-LawfulFragment, then-LawfulFragment,
}
use tpm_rs.Derive.Enum.{MarshalableVariant}
use tpm_rs.Derive.VariantLaws.{LawfulVariant}
use tpm_rs.Derive.Tagged.{tagged, tagged_marshal, tagged_unmarshal}

abbrev pub tagged_format {ℓ κ} :
    {R : Type ℓ} {S : Type κ} → ℕ → MarshalableVariant S → Format R → Format S → Format (R × S)
tagged_format w v f g = record {
  Valid = λ x. f.Valid x.0 × g.Valid x.1;
  encode = λ x. ((prim_format w).encode (v.discriminant x.1) ++ f.encode x.0) ++ g.encode x.1;
}

module _ {ℓ κ} {R : Type ℓ} {S : Type κ} {w : ℕ} {v : MarshalableVariant S} {fields : Fragment R}
    {f : Format R} {g : Format S} (l : LawfulFragment fields f) (r : LawfulVariant w v g) where
  front : LawfulFragment (field (prim w) then fields) (pair_format (prim_format w) f)
  front = then-LawfulFragment (field-LawfulFragment (prim-Lawful w)) l

  tagged_marshal-fits :
      (x : R × S) (pre buffer : List ℕ)
      → f.Valid x.0
      → g.Valid x.1
      → length ((tagged_format w v f g).encode x) ≤ length buffer
      → tagged_marshal w v fields x (length pre) (pre ++ buffer)
        ≡ wrote_at pre ((tagged_format w v f g).encode x) buffer
  unfolding tagged_marshal
  tagged_marshal-fits x pre buffer vf vg fits =
      let head : ℕ × R = (v.discriminant x.1, x.0) in
      let e = (pair_format (prim_format w) f).encode head in
      let d = g.encode x.1 in
      let len = length-append e d in
      rw
        (
          front.marshal_fits head pre buffer (r.discriminant_lt x.1, vf) (omega arith),
          continue-wrote pre e buffer _,
        )
        (write_at-fits (v.try_marshal_variant x.1) d (pre ++ e) (drop (length e) buffer) (
            r.marshal_fits x.1 (drop (length e) buffer) vg
              (omega (arith, length-drop (length e) buffer)))
          ∙ wrote_at-append pre e d buffer)

  tagged_marshal-IsShort :
      (x : R × S) (pre buffer : List ℕ)
      → f.Valid x.0
      → g.Valid x.1
      → length buffer < length ((tagged_format w v f g).encode x)
      → IsShort (tagged_marshal w v fields x (length pre) (pre ++ buffer)).0
  unfolding tagged_marshal
  tagged_marshal-IsShort x pre buffer vf vg small =
      let head : ℕ × R = (v.discriminant x.1, x.0) in
      let e = (pair_format (prim_format w) f).encode head in
      let len = length-append e (g.encode x.1) in
      let vhead : (v.discriminant x.1 < 256 ^ w) × f.Valid x.0 = (r.discriminant_lt x.1, vf) in
      elim (Bool-cases (ltb (length buffer) (length e))) [
        | inl short ↦
            continue-IsShort _ _ (front.marshal_short head pre buffer vhead (ltb→lt _ _ short))
        | inr fits ↦
            rw
              (
                front.marshal_fits head pre buffer vhead (ground arith),
                continue-wrote pre e buffer _,
              )
              (write_at-IsShort (v.try_marshal_variant x.1) (pre ++ e) (drop (length e) buffer) (
                r.marshal_short x.1 (drop (length e) buffer) vg
                  (ground (arith, length-drop (length e) buffer))))
      ]

  tagged_unmarshal-encode :
      (x : R × S) (rest : List ℕ)
      → f.Valid x.0
      → g.Valid x.1
      → tagged_unmarshal w v fields ((tagged_format w v f g).encode x ++ rest) ≡ ok (x, rest)
  unfolding tagged_unmarshal
  tagged_unmarshal-encode x rest vf vg =
      let head : ℕ × R = (v.discriminant x.1, x.0) in
      let e = (pair_format (prim_format w) f).encode head in
      rw
        (
          append_assoc e (g.encode x.1) rest,
          front.unmarshal_encode head (g.encode x.1 ++ rest) (r.discriminant_lt x.1, vf),
          r.unmarshal_encode x.1 rest vg,
        )
        refl

  tagged_unmarshal-exact :
      (x : R × S) (buffer rest : List ℕ)
      → All IsByte buffer
      → tagged_unmarshal w v fields buffer ≡ ok (x, rest)
      → (f.Valid x.0 × g.Valid x.1) × (buffer ≡ (tagged_format w v f g).encode x ++ rest)
  unfolding tagged_unmarshal
  tagged_unmarshal-exact x buffer rest b e =
      let (((s, y), mid), read, more) =
        >>=-eq-ok ((field (prim w) then fields).unmarshal buffer) _ e in
      let ((z, end), read', done) = >>=-eq-ok (v.try_unmarshal_variant s mid) _ more in
      let (vh, split) = front.unmarshal_exact (s, y) buffer mid b read in
      let bytes = (pair_format (prim_format w) f).encode (s, y) in
      let (vg, s_eq, split') =
        r.unmarshal_exact s z mid end (All-append_right IsByte bytes mid (rw split at b)) read' in
      let y_eq : y ≡ x.0 = cc done in
      let z_eq : z ≡ x.1 = cc done in
      let end_eq : end ≡ rest = cc done in
      (
        (rw y_eq at vh.1, rw z_eq at vg),
        cc (split, split', s_eq, y_eq, z_eq, end_eq, append_assoc bytes (g.encode z) end),
      )

  tagged_unmarshal-total : (buffer : List ℕ) → tagged_unmarshal w v fields buffer ≢ panic
  unfolding tagged_unmarshal
  tagged_unmarshal-total buffer =
      >>=-ne-panic ((field (prim w) then fields).unmarshal buffer) _ (front.unmarshal_total buffer)
        λ ((s, y), mid).
          >>=-ne-panic (v.try_unmarshal_variant s mid) _ (r.unmarshal_total s mid) (λ z e. cc)

  pub tagged-LawfulFragment : LawfulFragment (tagged w v fields) (tagged_format w v f g)
  tagged-LawfulFragment = record {
    encode_bytes = λ x h.
        All-append IsByte _ (g.encode x.1)
          (front.encode_bytes (v.discriminant x.1, x.0) (r.discriminant_lt x.1, h.0))
          (r.encode_bytes x.1 h.1);
    marshal_fits = λ x pre buffer h. tagged_marshal-fits x pre buffer h.0 h.1;
    marshal_short = λ x pre buffer h. tagged_marshal-IsShort x pre buffer h.0 h.1;
    unmarshal_encode = λ x rest h. tagged_unmarshal-encode x rest h.0 h.1;
    unmarshal_exact = tagged_unmarshal-exact;
    unmarshal_total = tagged_unmarshal-total;
  }
