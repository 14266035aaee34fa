-- ===== src/Derive/EntryLaws.antt =====
-- The format of an array with a length attribute, and the laws of the code generated for it
-- (marshalable-derive/src/lib.rs). Entries past the length are the default, as every constructor and
-- reader of the crate leaves them.
use tpm_rs.Prelude.{
  ℕ, zero, suc, ◌^◌, ◌≤◌, ◌<◌, ◌≡◌, ◌≢◌, ap, ◌∙◌, arith, List, [], ◌∷◌, ◌++◌, length, drop,
  replicate, All, length-append, length-drop, All-append, All-append_right, append_assoc, ltb,
  Bool-cases, inl, inr, ltb→lt, le→ltb,
}
use tpm_rs.Outcome.{ok, panic, >>=-eq-ok, >>=-ne-panic}
use tpm_rs.Marshal.Core.{IsByte, Written, Marshalable, prim}
use tpm_rs.Marshal.Lawful.{IsShort, Format, Lawful, prim_format, prim-Lawful}
use tpm_rs.Derive.Fields.{
  marshal_entries, unmarshal_entries, unmarshal_array, counted_marshal, counted_unmarshal, counted,
}
use tpm_rs.Derive.Laws.{
  LawfulFragment, wrote_at, wrote_at-append, continue-wrote, continue-IsShort, write_at-fits,
  write_at-IsShort,
}

module _ {A : Type 0} (f : Format A) where
  abbrev pub ValidEntries : A → ℕ → ℕ → List A → Type 0
  ValidEntries d zero max xs = xs ≡ replicate max d
  ValidEntries d (suc k) zero xs = ⊥
  ValidEntries d (suc k) (suc max) [] = ⊥
  ValidEntries d (suc k) (suc max) (x ∷ xs) = f.Valid x × ValidEntries d k max xs

  abbrev pub encode_entries : ℕ → List A → List ℕ
  encode_entries zero xs = []
  encode_entries (suc k) [] = []
  encode_entries (suc k) (x ∷ xs) = f.encode x ++ encode_entries k xs

module _ {A : Type 0} {m : Marshalable A} {f : Format A} (l : Lawful m f) (d : A) where
  entries_bytes :
      (k max : ℕ) (xs : List A) → ValidEntries f d k max xs → All IsByte (encode_entries f k xs)
  entries_bytes zero max xs v = tt
  entries_bytes (suc k) zero xs v = elim v [ ]
  entries_bytes (suc k) (suc max) [] v = elim v [ ]
  entries_bytes (suc k) (suc max) (x ∷ xs) v =
      All-append IsByte (f.encode x) _ (l.encode_bytes x v.0) (entries_bytes k max xs v.1)

  entries-fits :
      (k max : ℕ) (xs : List A) (pre buffer : List ℕ)
      → ValidEntries f d k max xs
      → length (encode_entries f k xs) ≤ length buffer
      → marshal_entries m k xs (length pre) (pre ++ buffer)
        ≡ wrote_at pre (encode_entries f k xs) buffer
  unfolding marshal_entries
  entries-fits zero max xs pre buffer v h =
      ap (λ (n : ℕ). (let w : Written = (ok n, pre ++ buffer) in w)) (omega arith)
  entries-fits (suc k) zero xs pre buffer v h = elim v [ ]
  entries-fits (suc k) (suc max) [] pre buffer v h = elim v [ ]
  entries-fits (suc k) (suc max) (x ∷ xs) pre buffer v h =
      let e = f.encode x in
      let len = length-append e (encode_entries f k xs) in
      rw
        (
          write_at-fits (m.try_marshal x) e pre buffer (l.marshal_fits x buffer v.0 (omega arith)),
          continue-wrote pre e buffer _,
        )
        (entries-fits k max xs (pre ++ e) (drop (length e) buffer) v.1
            (omega (arith, length-drop (length e) buffer))
          ∙ wrote_at-append pre e (encode_entries f k xs) buffer)

  entries-IsShort :
      (k max : ℕ) (xs : List A) (pre buffer : List ℕ)
      → ValidEntries f d k max xs
      → length buffer < length (encode_entries f k xs)
      → IsShort (marshal_entries m k xs (length pre) (pre ++ buffer)).0
  unfolding marshal_entries
  entries-IsShort zero max xs pre buffer v h = absurd (omega arith)
  entries-IsShort (suc k) zero xs pre buffer v h = elim v [ ]
  entries-IsShort (suc k) (suc max) [] pre buffer v h = elim v [ ]
  entries-IsShort (suc k) (suc max) (x ∷ xs) pre buffer v h =
      let e = f.encode x in
      let len = length-append e (encode_entries f k xs) in
      elim (Bool-cases (ltb (length buffer) (length e))) [
        | inl short ↦ continue-IsShort _ _ (
            write_at-IsShort (m.try_marshal x) pre buffer
              (l.marshal_short x buffer v.0 (ltb→lt _ _ short)))
        | inr fits ↦
            rw
              (
                write_at-fits (m.try_marshal x) e pre buffer
                    (l.marshal_fits x buffer v.0 (ground arith)),
                continue-wrote pre e buffer _,
              )
              (entries-IsShort k max xs (pre ++ e) (drop (length e) buffer) v.1
                (ground (arith, length-drop (length e) buffer)))
      ]

  entries_unmarshal-encode :
      (k max : ℕ) (xs : List A) (rest : List ℕ)
      → ValidEntries f d k max xs
      → unmarshal_entries m d k max (encode_entries f k xs ++ rest) ≡ ok (xs, rest)
  unfolding unmarshal_entries
  entries_unmarshal-encode zero max xs rest v = rw v
  entries_unmarshal-encode (suc k) zero xs rest v = elim v [ ]
  entries_unmarshal-encode (suc k) (suc max) [] rest v = elim v [ ]
  entries_unmarshal-encode (suc k) (suc max) (x ∷ xs) rest v = rw (
    append_assoc,
    l.unmarshal_encode x (encode_entries f k xs ++ rest) v.0,
    entries_unmarshal-encode k max xs rest v.1,
  )

  entries_unmarshal-exact :
      (k max : ℕ) (xs : List A) (buffer rest : List ℕ)
      → k ≤ max
      → All IsByte buffer
      → unmarshal_entries m d k max buffer ≡ ok (xs, rest)
      → ValidEntries f d k max xs × (buffer ≡ encode_entries f k xs ++ rest)
  unfolding unmarshal_entries
  entries_unmarshal-exact zero max xs buffer rest h b e = (cc e, cc e)
  entries_unmarshal-exact (suc k) zero xs buffer rest h b e = absurd (omega arith)
  entries_unmarshal-exact (suc k) (suc max) xs buffer rest h b e =
      let ((y, mid), first, more) = >>=-eq-ok (m.try_unmarshal buffer) _ e in
      let ((ys, end), second, done) = >>=-eq-ok (unmarshal_entries m d k max mid) _ more in
      let (vy, split) = l.unmarshal_exact y buffer mid b first in
      let (vys, split') =
        entries_unmarshal-exact k max ys mid end (omega arith)
          (All-append_right IsByte (f.encode y) mid (rw split at b)) second in
      let same : y ∷ ys ≡ xs = cc done in
      let end_eq : end ≡ rest = cc done in
      rw (← same) (
        (vy, vys),
        cc (split, split', end_eq, append_assoc (f.encode y) (encode_entries f k ys) rest),
      )

  entries_unmarshal-total :
      (k max : ℕ) (buffer : List ℕ) → unmarshal_entries m d k max buffer ≢ panic
  unfolding unmarshal_entries
  entries_unmarshal-total zero max buffer e = cc
  entries_unmarshal-total (suc k) zero buffer e = cc
  entries_unmarshal-total (suc k) (suc max) buffer e =
      >>=-ne-panic (m.try_unmarshal buffer) _ (l.unmarshal_total buffer)
        (λ (x, mid).
          >>=-ne-panic (unmarshal_entries m d k max mid) _ (entries_unmarshal-total k max mid)
            (λ v e. cc))
        e

-- The length is at most `max`, the entries up to it are valid, and the others are the default.
abbrev pub counted_format : {A : Type 0} → ℕ → ℕ → A → Format A → Format (ℕ × List A)
counted_format w max d f = record {
  Valid = λ v. (v.0 < 256 ^ w) × (v.0 ≤ max) × ValidEntries f d v.0 max v.1;
  encode = λ v. (prim_format w).encode v.0 ++ encode_entries f v.0 v.1;
}

module _ (w max : ℕ) {A : Type 0} {m : Marshalable A} {f : Format A} (l : Lawful m f) (d : A) where
  counted-fits :
      (v : ℕ × List A) (pre buffer : List ℕ)
      → (counted_format w max d f).Valid v
      → length ((counted_format w max d f).encode v) ≤ length buffer
      → counted_marshal m w v (length pre) (pre ++ buffer)
        ≡ wrote_at pre ((counted_format w max d f).encode v) buffer
  unfolding counted_marshal
  counted-fits v pre buffer h fits =
      let e = (prim_format w).encode v.0 in
      let len = length-append e (encode_entries f v.0 v.1) in
      rw
        (
          write_at-fits ((prim w).try_marshal v.0) e pre buffer
              ((prim-Lawful w).marshal_fits v.0 buffer h.0 (omega arith)),
          continue-wrote pre e buffer _,
        )
        (entries-fits l d v.0 max v.1 (pre ++ e) (drop (length e) buffer) h.2
            (omega (arith, length-drop (length e) buffer))
          ∙ wrote_at-append pre e (encode_entries f v.0 v.1) buffer)

  counted-IsShort :
      (v : ℕ × List A) (pre buffer : List ℕ)
      → (counted_format w max d f).Valid v
      → length buffer < length ((counted_format w max d f).encode v)
      → IsShort (counted_marshal m w v (length pre) (pre ++ buffer)).0
  unfolding counted_marshal
  counted-IsShort v pre buffer h small =
      let e = (prim_format w).encode v.0 in
      let len = length-append e (encode_entries f v.0 v.1) in
      elim (Bool-cases (ltb (length buffer) (length e))) [
        | inl short ↦ continue-IsShort _ _ (
            write_at-IsShort ((prim w).try_marshal v.0) pre buffer
              ((prim-Lawful w).marshal_short v.0 buffer h.0 (ltb→lt _ _ short)))
        | inr fits ↦
            rw
              (
                write_at-fits ((prim w).try_marshal v.0) e pre buffer
                    ((prim-Lawful w).marshal_fits v.0 buffer h.0 (ground arith)),
                continue-wrote pre e buffer _,
              )
              (entries-IsShort l d v.0 max v.1 (pre ++ e) (drop (length e) buffer) h.2
                (ground (arith, length-drop (length e) buffer)))
      ]

  array_unmarshal-encode :
      (n : ℕ) (xs : List A) (rest : List ℕ)
      → n ≤ max
      → ValidEntries f d n max xs
      → unmarshal_array m d n max (encode_entries f n xs ++ rest) ≡ ok (xs, rest)
  unfolding unmarshal_array
  array_unmarshal-encode n xs rest h v =
      rw (le→ltb max n h) (entries_unmarshal-encode l d n max xs rest v)

  array_unmarshal-exact :
      (n : ℕ) (xs : List A) (buffer rest : List ℕ)
      → All IsByte buffer
      → unmarshal_array m d n max buffer ≡ ok (xs, rest)
      → (n ≤ max) × ValidEntries f d n max xs × (buffer ≡ encode_entries f n xs ++ rest)
  unfolding unmarshal_array
  array_unmarshal-exact n xs buffer rest b e = elim (Bool-cases (ltb max n)) [
    | inl over ↦ absurd (cc (over, e))
    | inr fits ↦
        let le : n ≤ max = ground arith in
        let (v, split) = entries_unmarshal-exact l d n max xs buffer rest le b (rw fits at e) in
        (le, v, split)
  ]

  array_unmarshal-total : (n : ℕ) (buffer : List ℕ) → unmarshal_array m d n max buffer ≢ panic
  unfolding unmarshal_array
  array_unmarshal-total n buffer = elim (Bool-cases (ltb max n)) [
    | inl over ↦ rw over (λ e. cc)
    | inr fits ↦ rw fits (entries_unmarshal-total l d n max buffer)
  ]

  counted_unmarshal-encode :
      (v : ℕ × List A) (rest : List ℕ)
      → (counted_format w max d f).Valid v
      → counted_unmarshal m w max d ((counted_format w max d f).encode v ++ rest) ≡ ok (v, rest)
  unfolding counted_unmarshal
  counted_unmarshal-encode v rest h = rw (
    append_assoc,
    (prim-Lawful w).unmarshal_encode v.0 (encode_entries f v.0 v.1 ++ rest) h.0,
    array_unmarshal-encode v.0 v.1 rest h.1 h.2,
  )

  counted_unmarshal-exact :
      (v : ℕ × List A) (buffer rest : List ℕ)
      → All IsByte buffer
      → counted_unmarshal m w max d buffer ≡ ok (v, rest)
      → (counted_format w max d f).Valid v × (buffer ≡ (counted_format w max d f).encode v ++ rest)
  unfolding counted_unmarshal
  counted_unmarshal-exact v buffer rest b e =
      let ((n, mid), first, more) = >>=-eq-ok ((prim w).try_unmarshal buffer) _ e in
      let (vn, split) = (prim-Lawful w).unmarshal_exact n buffer mid b first in
      let ((xs, end), second, done) = >>=-eq-ok (unmarshal_array m d n max mid) _ more in
      let (le, vxs, split') =
        array_unmarshal-exact n xs mid end
          (All-append_right IsByte ((prim_format w).encode n) mid (rw split at b)) second in
      let n_eq : n ≡ v.0 = cc done in
      let xs_eq : xs ≡ v.1 = cc done in
      let end_eq : end ≡ rest = cc done in
      rw (← n_eq, ← xs_eq)
        (
          (vn, le, vxs),
          cc (
            split,
            split',
            end_eq,
            append_assoc ((prim_format w).encode n) (encode_entries f n xs) rest,
          ),
        )

  counted_unmarshal-total : (buffer : List ℕ) → counted_unmarshal m w max d buffer ≢ panic
  unfolding counted_unmarshal
  counted_unmarshal-total buffer =
      >>=-ne-panic ((prim w).try_unmarshal buffer) _ ((prim-Lawful w).unmarshal_total buffer)
        λ (n, mid).
          >>=-ne-panic (unmarshal_array m d n max mid) _ (array_unmarshal-total n mid) (λ v e. cc)

  pub counted-LawfulFragment : LawfulFragment (counted m w max d) (counted_format w max d f)
  counted-LawfulFragment = record {
    encode_bytes = λ v h.
        All-append IsByte ((prim_format w).encode v.0) _ ((prim-Lawful w).encode_bytes v.0 h.0)
          (entries_bytes l d v.0 max v.1 h.2);
    marshal_fits = counted-fits;
    marshal_short = counted-IsShort;
    unmarshal_encode = counted_unmarshal-encode;
    unmarshal_exact = counted_unmarshal-exact;
    unmarshal_total = counted_unmarshal-total;
  }
