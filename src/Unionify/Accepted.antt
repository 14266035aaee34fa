-- ===== src/Unionify/Accepted.antt =====
-- unionify-derive/src/lib.rs: which enums are turned into a union, and what the union holds.
use tpm_rs.Prelude.{◌≡◌, ap, refl, List, [], ◌∷◌, ◌==◌, Option, if◌then◌else◌}
use tpm_rs.Outcome.{Outcome, ok, err, ◌>>=◌}
use tpm_rs.Unionify.{
  UnionError, generics, not_one_field, Fields, named, unnamed, unit_fields, Errors, Variant,
  UnionField, ItemEnum, one_item, variant_field, enum_fields_to_union_type,
  enum_variant_to_union_field, partition, errors_to_error, filter_some, map_variants, union_fields,
  tagged_enum_to_union,
}

module _ {N T : Type 0} where
  -- The variants that have a field, in their order.
  abbrev single_item : N → List T → List (UnionField N T) → List (UnionField N T)
  single_item n [] more = more
  single_item n (t ∷ []) more = record { name = n; ty = t } ∷ more
  single_item n (t ∷ u ∷ ts) more = more

  abbrev single_field : N → Fields T → List (UnionField N T) → List (UnionField N T)
  single_field n (named ts) more = single_item n ts more
  single_field n (unnamed ts) more = single_item n ts more
  single_field n unit_fields more = more

  abbrev pub single_fields : List (Variant N T) → List (UnionField N T)
  single_fields [] = []
  single_fields (v ∷ vs) = single_field v.ident v.fields (single_fields vs)

  -- The variants that are refused, in their order.
  abbrev refused_items : N → List T → List (UnionError N) → List (UnionError N)
  refused_items n [] more = not_one_field n ∷ more
  refused_items n (t ∷ []) more = more
  refused_items n (t ∷ u ∷ ts) more = not_one_field n ∷ more

  abbrev refused_field : N → Fields T → List (UnionError N) → List (UnionError N)
  refused_field n (named ts) more = refused_items n ts more
  refused_field n (unnamed ts) more = refused_items n ts more
  refused_field n unit_fields more = more

  abbrev pub refused : List (Variant N T) → List (UnionError N)
  refused [] = []
  refused (v ∷ vs) = refused_field v.ident v.fields (refused vs)

  -- What `partition` makes of the variant `v` and of those behind it.
  abbrev Parted :
      List (Outcome (UnionError N) (Option (UnionField N T)))
      → List (UnionField N T)
      → List (UnionError N)
      → Type 0
  Parted rs fields errors = (filter_some (partition rs).0 ≡ fields) × ((partition rs).1 ≡ errors)

  one_item-Parted :
      (n : N) (ts : List T) (rs : List (Outcome (UnionError N) (Option (UnionField N T))))
      (fields : List (UnionField N T)) (errors : List (UnionError N))
      → Parted rs fields errors
      → Parted
          (variant_field n (one_item n ts) ∷ rs)
          (single_item n ts fields)
          (refused_items n ts errors)
  unfolding partition filter_some
  one_item-Parted n [] rs fields errors (kept, es) = (kept, ap (λ x. not_one_field n ∷ x) es)
  one_item-Parted n (t ∷ []) rs fields errors (kept, es) =
      (ap (λ x. record { name = n; ty = t } ∷ x) kept, es)
  one_item-Parted n (t ∷ u ∷ ts) rs fields errors (kept, es) =
      (kept, ap (λ x. not_one_field n ∷ x) es)

  variant-Parted :
      (n : N) (f : Fields T) (rs : List (Outcome (UnionError N) (Option (UnionField N T))))
      (fields : List (UnionField N T)) (errors : List (UnionError N))
      → Parted rs fields errors
      → Parted
          (enum_variant_to_union_field (record { ident = n; fields = f }) ∷ rs)
          (single_field n f fields)
          (refused_field n f errors)
  unfolding partition filter_some enum_variant_to_union_field enum_fields_to_union_type
  variant-Parted n (named ts) rs fields errors parted = one_item-Parted n ts rs fields errors parted
  variant-Parted n (unnamed ts) rs fields errors parted =
      one_item-Parted n ts rs fields errors parted
  variant-Parted n unit_fields rs fields errors parted = parted

  partition-map_variants :
      (vs : List (Variant N T)) → Parted (map_variants vs) (single_fields vs) (refused vs)
  unfolding map_variants partition filter_some
  partition-map_variants [] = (refl, refl)
  partition-map_variants (v ∷ vs) =
      variant-Parted v.ident v.fields (map_variants vs) (single_fields vs) (refused vs)
        (partition-map_variants vs)

  -- By the errors of the variants.
  abbrev pub combined :
      List (UnionError N) → List (UnionField N T) → Outcome (Errors N) (List (UnionField N T))
  combined [] fields = ok fields
  combined (e ∷ es) fields = err (e, es)

  combined-eq :
      (es : List (UnionError N)) (fields : List (UnionField N T))
      → (errors_to_error es >>= λ u. ok fields) ≡ combined es fields
  unfolding errors_to_error
  combined-eq [] fields = refl
  combined-eq (e ∷ es) fields = refl

  -- An enum with generic parameters is refused for them alone; any other is refused with one
  -- error for each variant in braces or parentheses that has not one field, in their order, and
  -- without such a variant becomes the union of the fields of the variants that have one, in
  -- their order and under their names.
  pub tagged_enum_to_union-eq :
      (e : ItemEnum N T)
      → tagged_enum_to_union e ≡ (
          if e.params == 0
          then combined (refused e.variants) (single_fields e.variants)
          else err (generics, []))
  unfolding tagged_enum_to_union union_fields
  tagged_enum_to_union-eq e =
      let (kept, errors) = partition-map_variants e.variants in
      rw
        (
          tagged_enum_to_union,
          union_fields,
          kept,
          errors,
          combined-eq (refused e.variants) (single_fields e.variants),
        )
        refl
