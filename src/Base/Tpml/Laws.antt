-- ===== src/Base/Tpml/Laws.antt =====
-- base/src/lib.rs: the lists with a count, as `new` and `add` make them.
use tpm_rs.Prelude.{
  ℕ, zero, suc, ◌+◌, ◌^◌, ◌%◌, ◌≤◌, ◌<◌, ◌≡◌, ap, refl, arith, ◌∙◌, min, List, [], ◌∷◌, ◌++◌,
  length, take, drop, set, replicate, length-replicate, All, ◌⊎◌, inl, inr, Bool-cases, take-append,
  ltb, leb, le→ltb,
}
use tpm_rs.Outcome.{ok, err}
use tpm_rs.Errors.{size as size_error}
use tpm_rs.Marshal.Lawful.{Format}
use tpm_rs.Derive.EntryLaws.{ValidEntries, counted_format}
use tpm_rs.Base.Tpml.{Tpml, tpml_new, tpml_add, tpml_elements}

module _ {A : Type 0} (f : Format A) (d : A) where
  overlay-ValidEntries :
      (max : ℕ) (xs : List A)
      → length xs ≤ max
      → All f.Valid xs
      → ValidEntries f d (length xs) max (xs ++ drop (length xs) (replicate max d))
  overlay-ValidEntries max [] fits valid = refl
  overlay-ValidEntries zero (x ∷ xs) fits valid = absurd (omega arith)
  overlay-ValidEntries (suc max) (x ∷ xs) fits (v, vs) =
      (v, overlay-ValidEntries max xs (omega arith) vs)

  length-ValidEntries : (k max : ℕ) (xs : List A) → ValidEntries f d k max xs → length xs ≡ max
  length-ValidEntries zero max xs valid = ap length valid ∙ length-replicate max d
  length-ValidEntries (suc k) zero xs valid = absurd valid
  length-ValidEntries (suc k) (suc max) [] valid = absurd valid
  length-ValidEntries (suc k) (suc max) (x ∷ xs) (v, vs) = ap suc (length-ValidEntries k max xs vs)

  set-ValidEntries :
      (k max : ℕ) (xs : List A) (x : A)
      → k < max
      → f.Valid x
      → ValidEntries f d k max xs
      → ValidEntries f d (suc k) max (set xs k x)
  set-ValidEntries k zero xs x h v vs = absurd (omega arith)
  set-ValidEntries zero (suc max) [] x h v vs = cc
  set-ValidEntries zero (suc max) (y ∷ ys) x h v vs = (v, cc vs)
  set-ValidEntries (suc k) (suc max) [] x h v vs = absurd vs
  set-ValidEntries (suc k) (suc max) (y ∷ ys) x h v (w, ws) =
      (w, set-ValidEntries k max ys x (omega arith) v ws)

  take-set :
      (k : ℕ) (xs : List A) (x : A)
      → k < length xs
      → take (suc k) (set xs k x) ≡ take k xs ++ x ∷ []
  take-set k [] x h = absurd (omega arith)
  take-set zero (y ∷ ys) x h = refl
  take-set (suc k) (y ∷ ys) x h = ap (λ zs. y ∷ zs) (take-set k ys x (omega arith))

  module _ (capacity : ℕ) (small : capacity < 2 ^ 32) where
    abbrev pub ValidList : Tpml A → Type 0
    ValidList = (counted_format 4 capacity d f).Valid

    new_fits :
        (xs : List A)
        → All f.Valid xs
        → length xs ≤ capacity
        → (t : Tpml A) × (tpml_new capacity d xs ≡ ok t)
          × ValidList t
          × (tpml_elements capacity t ≡ xs)
    unfolding tpml_new tpml_elements
    new_fits xs valid fits =
        let entries = xs ++ drop (length xs) (replicate capacity d) in
        let count : length xs % 2 ^ 32 ≡ length xs = omega (arith, small, fits) in
        let within : min (length xs) capacity ≡ length xs = omega (arith, fits) in
        (
          (length xs, entries),
          rw (tpml_new, le→ltb capacity (length xs) fits, count) refl,
          (omega (arith, small, fits), fits, overlay-ValidEntries capacity xs fits valid),
          rw (tpml_elements, within) (take-append xs (drop (length xs) (replicate capacity d))),
        )

    pub tpml_new-ValidList :
        (xs : List A)
        → All f.Valid xs
        → ((length xs ≤ capacity)
            × ((t : Tpml A) × (tpml_new capacity d xs ≡ ok t)
                × ValidList t
                × (tpml_elements capacity t ≡ xs)))
          ⊎ ((capacity < length xs) × (tpml_new capacity d xs ≡ err size_error))
    unfolding tpml_new
    tpml_new-ValidList xs valid = elim (Bool-cases (ltb capacity (length xs))) [
      | inl long ↦ inr (ground (arith, long), rw (tpml_new, long) refl)
      | inr short ↦
          let fits : length xs ≤ capacity = ground (arith, short) in
          inl (fits, new_fits xs valid fits)
    ]

    -- Adding a valid element to a list that can be marshalled either finds room, and gives a
    -- list that can be marshalled and whose elements are those before and the new one, or
    -- finds the array full and is refused with Size.
    pub tpml_add-ValidList :
        (t : Tpml A) (x : A)
        → ValidList t
        → f.Valid x
        → ((t.0 < capacity)
            × ((t' : Tpml A) × (tpml_add t x ≡ ok t')
                × ValidList t'
                × (tpml_elements capacity t' ≡ tpml_elements capacity t ++ x ∷ [])))
          ⊎ ((t.0 ≡ capacity) × (tpml_add t x ≡ err size_error))
    unfolding tpml_add tpml_elements
    tpml_add-ValidList t x (wide, fits, entries) v =
        let len : length t.1 ≡ capacity = length-ValidEntries t.0 capacity t.1 entries in
        let next : t.0 + 1 ≡ suc t.0 = omega arith in
        elim (Bool-cases (leb (length t.1) t.0)) [
          | inl full ↦
              let full' = rw len at full in
              inr (ground (arith, full', fits), rw (tpml_add, full) refl)
          | inr room ↦
              let room' = rw len at room in
              let below : t.0 < capacity = ground (arith, room') in
              let before : min t.0 capacity ≡ t.0 = omega (arith, below) in
              let behind : min (suc t.0) capacity ≡ suc t.0 = omega (arith, below) in
              inl (
                below,
                (
                  (suc t.0, set t.1 t.0 x),
                  rw (tpml_add, room, next) refl,
                  (
                    omega (arith, small, below),
                    omega (arith, below),
                    set-ValidEntries t.0 capacity t.1 x below v entries,
                  ),
                  rw (tpml_elements, before, behind)
                      (take-set t.0 t.1 x (omega (arith, len, below))),
                ),
              )
        ]
