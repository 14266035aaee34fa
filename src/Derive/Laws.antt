-- ===== src/Derive/Laws.antt =====
-- The laws of the code generated for structs (marshalable-derive/src/lib.rs), over those of the fields.
use tpm_rs.Prelude.{
  ℕ, ◌+◌, ◌≤◌, ◌<◌, ◌≡◌, ◌≢◌, sym, ap, ap₂, ◌∙◌, arith, List, [], ◌++◌, length, drop, All,
  length-append, length-drop, take-append, drop-append, drop-drop, All-append, All-append_right,
  append_assoc, ltb, if◌then◌else◌, Bool-cases, inl, inr, le→ltb, ltb→lt,
}
use tpm_rs.Outcome.{Outcome, ok, err, panic, ◌>>=◌, >>=-eq-ok, >>=-ne-panic}
use tpm_rs.Errors.{TpmRcError}
use tpm_rs.Marshal.Core.{IsByte, Written, Marshalable}
use tpm_rs.Marshal.Lawful.{IsShort, wrote, Format, Lawful}
use tpm_rs.Derive.Fields.{
  Fragment, write_at, continue, field, pair_marshal, pair_unmarshal, ◌then◌, derived_marshal,
  derived_unmarshal, derive,
}

-- The state after writing `e` behind `pre`.
abbrev pub wrote_at : List ℕ → List ℕ → List ℕ → Written
wrote_at pre e buffer = (ok (length pre + length e), pre ++ (e ++ drop (length e) buffer))

-- The laws of a fragment: behind what is already written, and as for `Lawful`.
pub record LawfulFragment {ℓ} {R : Type ℓ} (c : Fragment R) (f : Format R) : Type ℓ where
  pub encode_bytes : (r : R) → f.Valid r → All IsByte (f.encode r)
  pub marshal_fits :
      (r : R) (pre buffer : List ℕ)
      → f.Valid r
      → length (f.encode r) ≤ length buffer
      → c.marshal_from r (length pre) (pre ++ buffer) ≡ wrote_at pre (f.encode r) buffer
  pub marshal_short :
      (r : R) (pre buffer : List ℕ)
      → f.Valid r
      → length buffer < length (f.encode r)
      → IsShort (c.marshal_from r (length pre) (pre ++ buffer)).0
  pub unmarshal_encode :
      (r : R) (rest : List ℕ) → f.Valid r → c.unmarshal (f.encode r ++ rest) ≡ ok (r, rest)
  pub unmarshal_exact :
      (r : R) (buffer rest : List ℕ)
      → All IsByte buffer
      → c.unmarshal buffer ≡ ok (r, rest)
      → f.Valid r × (buffer ≡ f.encode r ++ rest)
  pub unmarshal_total : (buffer : List ℕ) → c.unmarshal buffer ≢ panic

abbrev pub advance : ℕ → Outcome TpmRcError ℕ → Outcome TpmRcError ℕ
advance written result = do n ← result; ok (written + n)

-- The slice `buffer[written..]` is what stands behind the part that is written.
pub write_at-append :
    (m : List ℕ → Written) (pre buffer : List ℕ)
    → write_at m (length pre) (pre ++ buffer)
      ≡ (advance (length pre) (m buffer).0, pre ++ (m buffer).1)
unfolding write_at
write_at-append m pre buffer = rw (
  le→ltb (length (pre ++ buffer)) (length pre) (omega (arith, length-append pre buffer)),
  take-append pre buffer,
  drop-append pre buffer,
)

-- With nothing before, `wrote_at` is `wrote`.
pub start_wrote : (e buffer : List ℕ) → wrote_at [] e buffer ≡ wrote e buffer
start_wrote e buffer =
    ap (λ (n : ℕ). (let w : Written = (ok n, e ++ drop (length e) buffer) in w)) (omega arith)

advance-IsShort : (k : ℕ) (o : Outcome TpmRcError ℕ) → IsShort o → IsShort (advance k o)
advance-IsShort k (ok n) h = h
advance-IsShort k (err e) h = h
advance-IsShort k panic h = h

pub write_at-fits :
    (m : List ℕ → Written) (e pre buffer : List ℕ)
    → m buffer ≡ wrote e buffer
    → write_at m (length pre) (pre ++ buffer) ≡ wrote_at pre e buffer
write_at-fits m e pre buffer h = rw (write_at-append m pre buffer, h)

pub write_at-IsShort :
    (m : List ℕ → Written) (pre buffer : List ℕ)
    → IsShort (m buffer).0
    → IsShort (write_at m (length pre) (pre ++ buffer)).0
write_at-IsShort m pre buffer h =
    rw (write_at-append m pre buffer) (advance-IsShort (length pre) (m buffer).0 h)

pub continue-IsShort :
    (w : Written) (next : ℕ → List ℕ → Written) → IsShort w.0 → IsShort (continue w next).0
unfolding continue
continue-IsShort (ok n, b) next h = elim h [ ]
continue-IsShort (err e, b) next h = h
continue-IsShort (panic, b) next h = h

module _ {ℓ} {A : Type ℓ} {m : Marshalable A} {f : Format A} (l : Lawful m f) where
  pub field-LawfulFragment : LawfulFragment (field m) f
  field-LawfulFragment = record {
    encode_bytes = l.encode_bytes;
    marshal_fits = λ a pre buffer v h.
        write_at-fits (m.try_marshal a) (f.encode a) pre buffer (l.marshal_fits a buffer v h);
    marshal_short = λ a pre buffer v h.
        write_at-IsShort (m.try_marshal a) pre buffer (l.marshal_short a buffer v h);
    unmarshal_encode = l.unmarshal_encode;
    unmarshal_exact = l.unmarshal_exact;
    unmarshal_total = l.unmarshal_total;
  }

-- After `pre`, writing `d` and then `e` is writing `d ++ e`.
pub wrote_at-append :
    (pre d e buffer : List ℕ)
    → wrote_at (pre ++ d) e (drop (length d) buffer) ≡ wrote_at pre (d ++ e) buffer
wrote_at-append pre d e buffer =
    ap₂ (λ (n : ℕ) (b : List ℕ). (let w : Written = (ok n, b) in w))
      (omega (arith, length-append pre d, length-append d e))
      (simp (append_assoc, drop-drop, length-append))

-- What follows a statement that wrote `d` starts behind `d`.
pub continue-wrote :
    (pre d buffer : List ℕ) (next : ℕ → List ℕ → Written)
    → continue (wrote_at pre d buffer) next
      ≡ next (length (pre ++ d)) ((pre ++ d) ++ drop (length d) buffer)
unfolding continue
continue-wrote pre d buffer next = simp (append_assoc, length-append)

module _ {ℓ κ} {A : Type ℓ} {B : Type κ} {c : Fragment A} {k : Fragment B} {f : Format A}
    {g : Format B} (l : LawfulFragment c f) (r : LawfulFragment k g) where
  pair_marshal-fits :
      (v : A × B) (pre buffer : List ℕ)
      → f.Valid v.0
      → g.Valid v.1
      → length (f.encode v.0 ++ g.encode v.1) ≤ length buffer
      → pair_marshal c k v (length pre) (pre ++ buffer)
        ≡ wrote_at pre (f.encode v.0 ++ g.encode v.1) buffer
  unfolding pair_marshal
  pair_marshal-fits v pre buffer va vb h =
      let e = f.encode v.0 in
      let d = g.encode v.1 in
      let len = length-append e d in
      rw (l.marshal_fits v.0 pre buffer va (omega arith), continue-wrote pre e buffer _)
        (r.marshal_fits v.1 (pre ++ e) (drop (length e) buffer) vb
            (omega (arith, length-drop (length e) buffer))
          ∙ wrote_at-append pre e d buffer)

  pair_marshal-IsShort :
      (v : A × B) (pre buffer : List ℕ)
      → f.Valid v.0
      → g.Valid v.1
      → length buffer < length (f.encode v.0 ++ g.encode v.1)
      → IsShort (pair_marshal c k v (length pre) (pre ++ buffer)).0
  unfolding pair_marshal
  pair_marshal-IsShort v pre buffer va vb h =
      let e = f.encode v.0 in
      let d = g.encode v.1 in
      let len = length-append e d in
      elim (Bool-cases (ltb (length buffer) (length e))) [
        | inl short ↦ continue-IsShort _ _ (l.marshal_short v.0 pre buffer va (ltb→lt _ _ short))
        | inr fits ↦
            rw (l.marshal_fits v.0 pre buffer va (ground arith), continue-wrote pre e buffer _)
              (r.marshal_short v.1 (pre ++ e) (drop (length e) buffer) vb
                (ground (arith, length-drop (length e) buffer)))
      ]

  pair_unmarshal-encode :
      (v : A × B) (rest : List ℕ)
      → f.Valid v.0
      → g.Valid v.1
      → pair_unmarshal c k ((f.encode v.0 ++ g.encode v.1) ++ rest) ≡ ok (v, rest)
  unfolding pair_unmarshal
  pair_unmarshal-encode v rest va vb = rw (
    append_assoc,
    l.unmarshal_encode v.0 (g.encode v.1 ++ rest) va,
    r.unmarshal_encode v.1 rest vb,
  )

  pair_unmarshal-exact :
      (v : A × B) (buffer rest : List ℕ)
      → All IsByte buffer
      → pair_unmarshal c k buffer ≡ ok (v, rest)
      → (f.Valid v.0 × g.Valid v.1) × (buffer ≡ (f.encode v.0 ++ g.encode v.1) ++ rest)
  unfolding pair_unmarshal
  pair_unmarshal-exact v buffer rest h e =
      let ((a, mid), first, more) = >>=-eq-ok (c.unmarshal buffer) _ e in
      let ((b, end), second, done) = >>=-eq-ok (k.unmarshal mid) _ more in
      let (va, split) = l.unmarshal_exact a buffer mid h first in
      let (vb, split') =
        r.unmarshal_exact b mid end (All-append_right IsByte (f.encode a) mid (rw split at h))
          second in
      let first_eq : a ≡ v.0 = cc done in
      let second_eq : b ≡ v.1 = cc done in
      let end_eq : end ≡ rest = cc done in
      (
        (rw first_eq at va, rw second_eq at vb),
        cc (
          split,
          split',
          first_eq,
          second_eq,
          end_eq,
          append_assoc (f.encode v.0) (g.encode v.1) rest,
        ),
      )

  pair_unmarshal-total : (buffer : List ℕ) → pair_unmarshal c k buffer ≢ panic
  unfolding pair_unmarshal
  pair_unmarshal-total buffer =
      >>=-ne-panic (c.unmarshal buffer) _ (l.unmarshal_total buffer)
        λ (a, mid). >>=-ne-panic (k.unmarshal mid) _ (r.unmarshal_total mid) (λ b e. cc)

abbrev pub pair_format {ℓ κ} : {A : Type ℓ} {B : Type κ} → Format A → Format B → Format (A × B)
pair_format f g = record {
  Valid = λ v. f.Valid v.0 × g.Valid v.1;
  encode = λ v. f.encode v.0 ++ g.encode v.1;
}

module _ {ℓ κ} {A : Type ℓ} {B : Type κ} {c : Fragment A} {k : Fragment B} {f : Format A}
    {g : Format B} (l : LawfulFragment c f) (r : LawfulFragment k g) where
  pub then-LawfulFragment : LawfulFragment (c then k) (pair_format f g)
  then-LawfulFragment = record {
    encode_bytes = λ v h.
        All-append IsByte (f.encode v.0) (g.encode v.1) (l.encode_bytes v.0 h.0)
          (r.encode_bytes v.1 h.1);
    marshal_fits = λ v pre buffer h. pair_marshal-fits l r v pre buffer h.0 h.1;
    marshal_short = λ v pre buffer h. pair_marshal-IsShort l r v pre buffer h.0 h.1;
    unmarshal_encode = λ v rest h. pair_unmarshal-encode l r v rest h.0 h.1;
    unmarshal_exact = pair_unmarshal-exact l r;
    unmarshal_total = pair_unmarshal-total l r;
  }

-- The format of a struct is that of its fields.
abbrev pub via_format {ℓ κ} : {S : Type ℓ} {R : Type κ} → (S → R) → Format R → Format S
via_format to f = record { Valid = λ s. f.Valid (to s); encode = λ s. f.encode (to s) }

module _ {ℓ κ} {S : Type ℓ} {R : Type κ} (to : S → R) (from : R → S)
    (from-to : (s : S) → from (to s) ≡ s) (to-from : (r : R) → to (from r) ≡ r) {c : Fragment R}
    {f : Format R} (l : LawfulFragment c f) where
  derived_marshal-fits :
      (s : S) (buffer : List ℕ)
      → f.Valid (to s)
      → length (f.encode (to s)) ≤ length buffer
      → derived_marshal to from c s buffer ≡ wrote (f.encode (to s)) buffer
  unfolding derived_marshal
  derived_marshal-fits s buffer v h =
      l.marshal_fits (to s) [] buffer v h ∙ start_wrote (f.encode (to s)) buffer

  derived_marshal-IsShort :
      (s : S) (buffer : List ℕ)
      → f.Valid (to s)
      → length buffer < length (f.encode (to s))
      → IsShort (derived_marshal to from c s buffer).0
  unfolding derived_marshal
  derived_marshal-IsShort s buffer v h = l.marshal_short (to s) [] buffer v h

  derived_unmarshal-encode :
      (s : S) (rest : List ℕ)
      → f.Valid (to s)
      → derived_unmarshal to from c (f.encode (to s) ++ rest) ≡ ok (s, rest)
  unfolding derived_unmarshal
  derived_unmarshal-encode s rest v = rw (l.unmarshal_encode (to s) rest v, from-to s)

  derived_unmarshal-exact :
      (s : S) (buffer rest : List ℕ)
      → All IsByte buffer
      → derived_unmarshal to from c buffer ≡ ok (s, rest)
      → f.Valid (to s) × (buffer ≡ f.encode (to s) ++ rest)
  unfolding derived_unmarshal
  derived_unmarshal-exact s buffer rest b e =
      let ((r, end), read, done) = >>=-eq-ok (c.unmarshal buffer) _ e in
      let (v, split) = l.unmarshal_exact r buffer end b read in
      let same : from r ≡ s = cc done in
      let end_eq : end ≡ rest = cc done in
      let back : r ≡ to s = sym (to-from r) ∙ ap to same in (rw back at v, cc (split, back, end_eq))

  derived_unmarshal-total : (buffer : List ℕ) → derived_unmarshal to from c buffer ≢ panic
  unfolding derived_unmarshal
  derived_unmarshal-total buffer =
      >>=-ne-panic (c.unmarshal buffer) _ (l.unmarshal_total buffer) (λ r e. cc)

  -- A derived struct is lawful, if `to` and `from` are inverse.
  pub derive-Lawful : Lawful (derive to from c) (via_format to f)
  derive-Lawful = record {
    encode_bytes = λ s. l.encode_bytes (to s);
    marshal_fits = derived_marshal-fits;
    marshal_short = derived_marshal-IsShort;
    unmarshal_encode = derived_unmarshal-encode;
    unmarshal_exact = derived_unmarshal-exact;
    unmarshal_total = derived_unmarshal-total;
  }
