-- ===== src/Base/Layout.antt =====
-- The layout that `repr(C)` gives to structs, unions and enums with fields, which base/src/lib.rs
-- uses through `size_of` and through `UnionSize` (unionify-derive/src/lib.rs). Sizes and alignments
-- are those of a target on which a number is aligned to its size.
use tpm_rs.Prelude.{ℕ, ◌+◌, ◌-◌, ◌*◌, ◌/◌, max, List, [], ◌∷◌}

pub record Layout : Type 0 where
  pub size : ℕ
  pub align : ℕ

abbrev pub round_up : ℕ → ℕ → ℕ
round_up n a = (n + a - 1) / a * a

abbrev pub word : ℕ → Layout
word w = record { size = w; align = w }

abbrev pub array : ℕ → Layout → Layout
array n l = record { size = n * l.size; align = l.align }

abbrev pub add_field : Layout → Layout → Layout
add_field s f = record { size = round_up s.size f.align + f.size; align = max s.align f.align }

abbrev pub padded : Layout → Layout
padded l = record { size = round_up l.size l.align; align = l.align }

abbrev pub fold_fields : Layout → List Layout → Layout
fold_fields l [] = l
fold_fields l (f ∷ fs) = fold_fields (add_field l f) fs

abbrev pub struct_of : List Layout → Layout
struct_of fields = padded (fold_fields (record { size = 0; align = 1 }) fields)

abbrev pub widest : Layout → List Layout → Layout
widest l [] = l
widest l (f ∷ fs) = widest (record { size = max l.size f.size; align = max l.align f.align }) fs

-- The `repr(C)` union that `tagged_enum_to_union` builds from the variants.
abbrev pub union_of : List Layout → Layout
union_of variants = padded (widest (record { size = 0; align = 1 }) variants)

-- An enum with fields: the selector, and then the union of the variants.
abbrev pub tagged : Layout → List Layout → Layout
tagged selector variants = struct_of (selector ∷ union_of variants ∷ [])
