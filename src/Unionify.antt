-- ===== src/Unionify.antt =====
-- unionify-derive/src/lib.rs: how the macro `UnionSize` turns an enum into a union. A syntax tree of
-- `syn` is what the functions look at: names, types and the number of generic parameters, with names
-- and types as parameters of the model. `combine` of errors is a list of errors that is not empty.
pub mod Accepted
use tpm_rs.Prelude.{
  ℕ, suc, zero, ◌<◌, List, [], ◌∷◌, ◌++◌, Option, none, some, ltb, ◌==◌, if◌then◌else◌, length,
}
use tpm_rs.Outcome.{Outcome, ok, err, panic, ◌>>=◌}

-- Why the macro refuses an enum: generic parameters, or a variant of this name whose fields, in
-- braces or parentheses, are not one.
pub data UnionError (N : Type 0) : Type 0 where
  generics : UnionError N
  not_one_field : N → UnionError N

-- The first error and those combined with it.
abbrev pub Errors : Type 0 → Type 0
Errors N = UnionError N × List (UnionError N)

-- `syn::Fields`, with the types of the fields.
pub data Fields (T : Type 0) : Type 0 where
  named : List T → Fields T
  unnamed : List T → Fields T
  unit_fields : Fields T

module _ (N T : Type 0) where
  pub record Variant : Type 0 where
    pub ident : N
    pub fields : Fields T

  pub record UnionField : Type 0 where
    pub name : N
    pub ty : T

  pub record ItemEnum : Type 0 where
    pub params : ℕ
    pub variants : List Variant

-- `partition(Result::is_ok)`, with the values and the errors taken out.
unfoldable pub partition :
    {N A : Type 0} → List (Outcome (UnionError N) A) → List A × List (UnionError N)
partition [] = ([], [])
partition (ok a ∷ rs) = let (kept, es) = partition rs in (a ∷ kept, es)
partition (err e ∷ rs) = let (kept, es) = partition rs in (kept, e ∷ es)
partition (panic ∷ rs) = partition rs

unfoldable pub errors_to_error : {N : Type 0} → List (UnionError N) → Outcome (Errors N) (Unit {0})
errors_to_error [] = ok tt
errors_to_error (e ∷ es) = err (e, es)

-- `filter_map(|t| t.unwrap())`
unfoldable pub filter_some : {A : Type 0} → List (Option A) → List A
filter_some [] = []
filter_some (none ∷ os) = filter_some os
filter_some (some a ∷ os) = a ∷ filter_some os

module _ {N T : Type 0} where
  -- `field_items`, which must be one; the name is where the error points to.
  abbrev pub one_item : N → List T → Outcome (UnionError N) (Option T)
  one_item n [] = err (not_one_field n)
  one_item n (t ∷ []) = ok (some t)
  one_item n (t ∷ u ∷ ts) = err (not_one_field n)

  unfoldable pub enum_fields_to_union_type : N → Fields T → Outcome (UnionError N) (Option T)
  enum_fields_to_union_type n (named items) = one_item n items
  enum_fields_to_union_type n (unnamed items) = one_item n items
  enum_fields_to_union_type n unit_fields = ok none

  -- The field of this name, if there is a type for it.
  abbrev pub variant_field :
      N → Outcome (UnionError N) (Option T) → Outcome (UnionError N) (Option (UnionField N T))
  variant_field n (ok (some t)) = ok (some (record { name = n; ty = t }))
  variant_field n (ok none) = ok none
  variant_field n (err e) = err e
  variant_field n panic = panic

  unfoldable pub enum_variant_to_union_field :
      Variant N T → Outcome (UnionError N) (Option (UnionField N T))
  enum_variant_to_union_field v = variant_field v.ident (enum_fields_to_union_type v.ident v.fields)

  unfoldable pub map_variants :
      List (Variant N T) → List (Outcome (UnionError N) (Option (UnionField N T)))
  map_variants [] = []
  map_variants (v ∷ vs) = enum_variant_to_union_field v ∷ map_variants vs

  -- The fields of the union, from what became of the variants.
  unfoldable pub union_fields :
      List (Option (UnionField N T)) × List (UnionError N)
      → Outcome (Errors N) (List (UnionField N T))
  union_fields (fields, errors) = do u ← errors_to_error errors; ok (filter_some fields)

  unfoldable pub tagged_enum_to_union : ItemEnum N T → Outcome (Errors N) (List (UnionField N T))
  tagged_enum_to_union e =
      if e.params == 0
      then union_fields (partition (map_variants e.variants))
      else err (generics, [])
