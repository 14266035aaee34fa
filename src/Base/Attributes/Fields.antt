-- ===== src/Base/Attributes/Fields.antt =====
-- base/src/lib.rs: setting and reading the fields of the attributes.
use tpm_rs.Prelude.{ℕ, ◌+◌, ◌-◌, ◌*◌, ◌/◌, ◌%◌, ◌^◌, ◌<◌, ◌≡◌, ◌∙◌, ap, refl, arith, bit_and}
use tpm_rs.Base.Attributes.{
  new_attribute_field, get_attribute_field, set_attribute_field, nt_mask, get_index_type, set_type,
  c_handles_mask, get_c_handles, set_c_handles, command_index_mask, get_command_index,
  set_command_index,
}
use tpm_rs.Base.Attributes.Bits.{with_field, field-kept, field-cleared, field-put}

module _ (k s j mask : ℕ) (ones : mask ≡ with_field k s 0 (2 ^ k - 1) 0)
    (others : 2 ^ 32 - 1 - mask ≡ with_field k s (2 ^ j - 1) 0 (2 ^ s - 1)) (h x l v : ℕ)
    (h_fits : h < 2 ^ j) (x_fits : x < 2 ^ k) (l_fits : l < 2 ^ s) (v_fits : v < 2 ^ k)
    (word : v * 2 ^ s < 2 ^ 32) where
  field-set : set_attribute_field (with_field k s h x l) v mask s ≡ with_field k s h v l
  unfolding set_attribute_field new_attribute_field
  field-set =
      let alone : v * 2 ^ s % 2 ^ 32 ≡ with_field k s 0 v 0 = omega (arith, word) in
      let kept : bit_and (with_field k s 0 v 0) mask ≡ v * 2 ^ s =
        rw ones (field-kept k s 0 v 0 v_fits (omega (arith, l_fits))) in
      let put : bit_and (with_field k s 0 v 0) mask ≡ v * 2 ^ s + 0 = omega (arith, kept) in
      rw
        (
          set_attribute_field,
          others,
          field-cleared k s h x l x_fits l_fits j h_fits,
          new_attribute_field,
          alone,
          put,
        )
        (field-put k s h v l v_fits l_fits)

  field-got : bit_and (with_field k s h v l) mask ≡ v * 2 ^ s
  field-got = rw ones (field-kept k s h v l v_fits l_fits)

set_type-eq :
    (nv t : ℕ)
    → nv < 2 ^ 32
    → t < 2 ^ 4
    → set_type nv t ≡ with_field 4 4 (nv / 2 ^ 8) t (nv % 2 ^ 4)
unfolding set_type
set_type-eq nv t nv_small t_small =
    let split : nv ≡ with_field 4 4 (nv / 2 ^ 8) (nv / 2 ^ 4 % 2 ^ 4) (nv % 2 ^ 4) = omega arith in
    ap (λ (y : ℕ). set_type y t) split
    ∙ field-set 4 4 24 nt_mask refl refl (nv / 2 ^ 8) (nv / 2 ^ 4 % 2 ^ 4) (nv % 2 ^ 4) t
        (omega (arith, nv_small)) (omega arith) (omega arith) t_small (omega (arith, t_small))

get_index_type-eq :
    (h t l : ℕ) → h < 2 ^ 24 → t < 2 ^ 4 → l < 2 ^ 4 → get_index_type (with_field 4 4 h t l) ≡ t
unfolding get_index_type get_attribute_field
get_index_type-eq h t l h_fits t_fits l_fits =
    rw
      (
        get_index_type,
        get_attribute_field,
        field-got 4 4 24 nt_mask refl refl h 0 l t h_fits (omega arith) l_fits t_fits
            (omega (arith, t_fits)),
      )
      (omega (arith, t_fits))

set_c_handles-eq :
    (cc c : ℕ)
    → cc < 2 ^ 32
    → c < 2 ^ 3
    → set_c_handles cc c ≡ with_field 3 25 (cc / 2 ^ 28) c (cc % 2 ^ 25)
unfolding set_c_handles
set_c_handles-eq cc c cc_small c_small =
    let split : cc ≡ with_field 3 25 (cc / 2 ^ 28) (cc / 2 ^ 25 % 2 ^ 3) (cc % 2 ^ 25) =
      omega arith in
    ap (λ (y : ℕ). set_c_handles y c) split
    ∙ field-set 3 25 4 c_handles_mask refl refl (cc / 2 ^ 28) (cc / 2 ^ 25 % 2 ^ 3) (cc % 2 ^ 25) c
        (omega (arith, cc_small)) (omega arith) (omega arith) c_small (omega (arith, c_small))

get_c_handles-eq :
    (h c l : ℕ) → h < 2 ^ 4 → c < 2 ^ 3 → l < 2 ^ 25 → get_c_handles (with_field 3 25 h c l) ≡ c
unfolding get_c_handles get_attribute_field
get_c_handles-eq h c l h_fits c_fits l_fits =
    rw
      (
        get_c_handles,
        get_attribute_field,
        field-got 3 25 4 c_handles_mask refl refl h 0 l c h_fits (omega arith) l_fits c_fits
            (omega (arith, c_fits)),
      )
      (omega (arith, c_fits))

set_command_index-eq :
    (cc n : ℕ)
    → cc < 2 ^ 32
    → n < 2 ^ 16
    → set_command_index cc n ≡ with_field 16 0 (cc / 2 ^ 16) n 0
unfolding set_command_index
set_command_index-eq cc n cc_small n_small =
    let split : cc ≡ with_field 16 0 (cc / 2 ^ 16) (cc % 2 ^ 16) 0 = omega arith in
    ap (λ (y : ℕ). set_command_index y n) split
    ∙ field-set 16 0 16 command_index_mask refl refl (cc / 2 ^ 16) (cc % 2 ^ 16) 0 n
        (omega (arith, cc_small)) (omega arith) (omega arith) n_small (omega (arith, n_small))

get_command_index-eq :
    (h n : ℕ) → h < 2 ^ 16 → n < 2 ^ 16 → get_command_index (with_field 16 0 h n 0) ≡ n
unfolding get_command_index get_attribute_field
get_command_index-eq h n h_fits n_fits =
    rw
      (
        get_command_index,
        get_attribute_field,
        field-got 16 0 16 command_index_mask refl refl h 0 0 n h_fits (omega arith) (omega arith)
            n_fits (omega (arith, n_fits)),
      )
      (omega (arith, n_fits))

-- In a word of 32 bits each of the three fields, set to a value that fits it, is read back as
-- that value, and the bits above and below it stay: the index type of TpmaNv, and the number of
-- handles and the command index of TpmaCc.
pub set-get_fields :
    (word index_type count index : ℕ)
    → word < 2 ^ 32
    → index_type < 2 ^ 4
    → count < 2 ^ 3
    → index < 2 ^ 16
    → ((get_index_type (set_type word index_type) ≡ index_type)
        × (set_type word index_type / 2 ^ 8 ≡ word / 2 ^ 8)
        × (set_type word index_type % 2 ^ 4 ≡ word % 2 ^ 4))
      × ((get_c_handles (set_c_handles word count) ≡ count)
          × (set_c_handles word count / 2 ^ 28 ≡ word / 2 ^ 28)
          × (set_c_handles word count % 2 ^ 25 ≡ word % 2 ^ 25))
      × ((get_command_index (set_command_index word index) ≡ index)
          × (set_command_index word index / 2 ^ 16 ≡ word / 2 ^ 16))
set-get_fields word t c n small t_small c_small n_small =
    let typed = set_type-eq word t small t_small in
    let counted = set_c_handles-eq word c small c_small in
    let indexed = set_command_index-eq word n small n_small in
    let h : word / 2 ^ 8 < 2 ^ 24 = omega (arith, small) in
    let h' : word / 2 ^ 28 < 2 ^ 4 = omega (arith, small) in
    let h'' : word / 2 ^ 16 < 2 ^ 16 = omega (arith, small) in
    let l : word % 2 ^ 4 < 2 ^ 4 = omega arith in
    let l' : word % 2 ^ 25 < 2 ^ 25 = omega arith in
    (
      (
        rw typed (get_index_type-eq (word / 2 ^ 8) t (word % 2 ^ 4) h t_small l),
        omega (arith, typed, t_small),
        omega (arith, typed),
      ),
      (
        rw counted (get_c_handles-eq (word / 2 ^ 28) c (word % 2 ^ 25) h' c_small l'),
        omega (arith, counted, c_small),
        omega (arith, counted),
      ),
      (
        rw indexed (get_command_index-eq (word / 2 ^ 16) n h'' n_small),
        omega (arith, indexed, n_small),
      ),
    )
