-- ===== src/Tpm2b/ReadLaws.antt =====
-- What `try_unmarshal` of a sized buffer reads and what it refuses (marshalable-derive/src/lib.rs).
use tpm_rs.Prelude.{
  ℕ, ◌-◌, ◌≤◌, ◌≡◌, ◌≢◌, sym, ap, refl, ◌∙◌, arith, true, false, List, ◌++◌, Option, none, some,
  length, take, All, ltb, length-replicate, take-append, take-append-drop, All-append_left,
  All-append_right, append_assoc, Bool-cases, inl, inr, le→ltb, ==_refl,
}
use tpm_rs.Outcome.{Outcome, ok, err, panic, >>=-eq-ok, >>=-ne-panic}
use tpm_rs.Errors.{TpmRcError, memory}
use tpm_rs.Marshal.Core.{IsByte, Read, get, prim}
use tpm_rs.Marshal.Lawful.{prim_format, prim-Lawful, get-append, get-eq-some}
use tpm_rs.Tpm2b.Simple.{Tpm2b, overlay, copy_into, sized, tpm2b_unmarshal}
use tpm_rs.Tpm2b.Sized.{
  IsSized, tpm2b_format, zeros_of, drop-replicate, overlay-IsSized, length-content,
}

copy_into-fits {ℓ} :
    {E : Type ℓ} (n : ℕ) (src dest : List ℕ)
    → length src ≡ n
    → n ≤ length dest
    → (let r : Outcome E (List ℕ) = copy_into n src dest in r) ≡ ok (overlay src dest)
unfolding copy_into
copy_into-fits n src dest e h = rw (le→ltb (length dest) n h, e, ==_refl n) refl

-- What a reader copies into the array of a new value.
copied :
    (n : ℕ) (bytes : List ℕ) (capacity : ℕ)
    → length bytes ≡ n
    → n ≤ capacity
    → (let r : Outcome TpmRcError (List ℕ) = copy_into n bytes (zeros_of capacity) in r)
      ≡ ok (overlay bytes (zeros_of capacity))
copied n bytes capacity e h =
    copy_into-fits n bytes (zeros_of capacity) e
      (omega (arith, h, length-replicate {A = ℕ} capacity 0))

module _ (capacity : ℕ) (t : Tpm2b) (v : IsSized capacity t) where
  rebuild : overlay (take t.size t.buffer) (zeros_of capacity) ≡ t.buffer
  rebuild =
      ap (λ (z : List ℕ). take t.size t.buffer ++ z)
        (drop-replicate (length (take t.size t.buffer)) capacity
          ∙ ap (λ (n : ℕ). zeros_of (capacity - n)) (length-content capacity t v)
          ∙ sym v.zeros)
      ∙ take-append-drop t.size t.buffer

  sized-content :
      (rest : List ℕ)
      → sized capacity t.size (get t.size (take t.size t.buffer ++ rest)) ≡ ok (t, rest)
  sized-content rest =
      let c = take t.size t.buffer in
      let found : get t.size (c ++ rest) ≡ some (c, rest) =
        rw (length-content capacity t v) at (get-append c rest) in
      rw found (
        unfold sized in
        rw
          (
            le→ltb capacity (length c) (omega (arith, (length-content capacity t v), v.size_le)),
            copied t.size c capacity (length-content capacity t v) v.size_le,
          )
          (ap
            (λ (b : List ℕ).
              (let r : Read Tpm2b = ok (record { size = t.size; buffer = b }, rest) in r))
            rebuild))

  pub unmarshal-encode :
      (rest : List ℕ)
      → tpm2b_unmarshal capacity ((tpm2b_format capacity).encode t ++ rest) ≡ ok (t, rest)
  unfolding tpm2b_unmarshal
  unmarshal-encode rest =
      rw
        (
          append_assoc,
          (prim-Lawful 2).unmarshal_encode t.size (take t.size t.buffer ++ rest) v.size_u16,
        )
        (sized-content rest)

not_lt : (a b : ℕ) → ltb a b ≡ false → b ≤ a
not_lt a b h = ground arith

-- What the reader found has the length that the size announces, so the copy does not panic.
sized-some :
    (capacity n : ℕ) (bytes rest : List ℕ)
    → length bytes ≡ n
    → n ≤ capacity
    → sized capacity n (some (bytes, rest))
      ≡ ok (record { size = n; buffer = overlay bytes (zeros_of capacity) }, rest)
unfolding sized
sized-some capacity n bytes rest e h =
    rw (le→ltb capacity (length bytes) (omega (arith, e, h)), copied n bytes capacity e h) refl

sized-none : (capacity n : ℕ) → sized capacity n none ≡ err memory
unfolding sized
sized-none capacity n = refl

sized-over :
    (capacity n : ℕ) (bytes rest : List ℕ)
    → ltb capacity (length bytes) ≡ true
    → sized capacity n (some (bytes, rest)) ≡ err memory
unfolding sized
sized-over capacity n bytes rest over = rw over refl

module _ (capacity n : ℕ) (buffer : List ℕ) where
  sized-eq-ok :
      (o : Option (List ℕ × List ℕ)) (t : Tpm2b) (rest : List ℕ)
      → get n buffer ≡ o
      → sized capacity n o ≡ ok (t, rest)
      → (bytes : List ℕ) × (o ≡ some (bytes, rest))
        × (length bytes ≤ capacity)
        × (record { size = n; buffer = overlay bytes (zeros_of capacity) } ≡ t)
  sized-eq-ok none t rest found e = absurd (cc (sized-none capacity n, e))
  sized-eq-ok (some (bytes, r)) t rest found e =
      let (len, split) = get-eq-some n buffer bytes r found in
      elim (Bool-cases (ltb capacity (length bytes))) [
        | inl over ↦ absurd (cc (sized-over capacity n bytes r over, e))
        | inr fits ↦
            let le = not_lt capacity (length bytes) fits in
            let same = sym (sized-some capacity n bytes r len (omega (arith, le, len))) ∙ e in
            (bytes, cc same, le, cc same)
      ]

  sized-ne-panic : (o : Option (List ℕ × List ℕ)) → get n buffer ≡ o → sized capacity n o ≢ panic
  sized-ne-panic none found e = absurd (cc (sized-none capacity n, e))
  sized-ne-panic (some (bytes, r)) found e =
      let (len, split) = get-eq-some n buffer bytes r found in
      elim (Bool-cases (ltb capacity (length bytes))) [
        | inl over ↦ absurd (cc (sized-over capacity n bytes r over, e))
        | inr fits ↦
            let le = not_lt capacity (length bytes) fits in
            absurd (cc (sized-some capacity n bytes r len (omega (arith, le, len)), e))
      ]

pub tpm2b_unmarshal-exact :
    (capacity : ℕ) (t : Tpm2b) (buffer rest : List ℕ)
    → All IsByte buffer
    → tpm2b_unmarshal capacity buffer ≡ ok (t, rest)
    → IsSized capacity t × (buffer ≡ (tpm2b_format capacity).encode t ++ rest)
unfolding tpm2b_unmarshal
tpm2b_unmarshal-exact capacity t buffer rest b e =
    let ((n, mid), read, more) = >>=-eq-ok ((prim 2).try_unmarshal buffer) _ e in
    let (vn, split) = (prim-Lawful 2).unmarshal_exact n buffer mid b read in
    let (bytes, found, le, built) = sized-eq-ok capacity n mid (get n mid) t rest refl more in
    let (len, split') = get-eq-some n mid bytes rest found in
    let all = All-append_right IsByte ((prim_format 2).encode n) mid (rw split at b) in
    let padded = overlay bytes (zeros_of capacity) in
    let front = ap (λ (k : ℕ). take k padded) (sym len) ∙ take-append bytes _ in
    rw (← built) (
      overlay-IsSized capacity n bytes len le vn
          (All-append_left IsByte bytes rest (rw split' at all)),
      cc (split, split', front, append_assoc ((prim_format 2).encode n) bytes rest),
    )

pub tpm2b_unmarshal-total :
    (capacity : ℕ) (buffer : List ℕ) → tpm2b_unmarshal capacity buffer ≢ panic
unfolding tpm2b_unmarshal
tpm2b_unmarshal-total capacity buffer =
    >>=-ne-panic ((prim 2).try_unmarshal buffer) _ ((prim-Lawful 2).unmarshal_total buffer)
      λ (n, mid). sized-ne-panic capacity n mid (get n mid) refl
