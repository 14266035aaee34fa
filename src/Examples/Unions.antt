-- ===== src/Examples/Unions.antt =====
-- An enum that unionify-derive/src refuses. Names and types are numbers.
use tpm_rs.Prelude.{ℕ, ◌≡◌, [], ◌∷◌}
use tpm_rs.Outcome.{err}
use tpm_rs.Unionify.{
  not_one_field, named, unnamed, unit_fields, Variant, ItemEnum, tagged_enum_to_union,
}
use tpm_rs.Unionify.Accepted.{tagged_enum_to_union-eq}

abbrev variant_of_two : Variant ℕ ℕ
variant_of_two = record { ident = 3; fields = unnamed (8 ∷ 9 ∷ []) }

-- No fields at all, one, braces without a field, and two.
abbrev four_variants : ItemEnum ℕ ℕ
four_variants = record {
  params = 0;
  variants =
      record { ident = 0; fields = unit_fields }
      ∷ record { ident = 1; fields = named (7 ∷ []) }
      ∷ record { ident = 2; fields = named [] }
      ∷ variant_of_two
      ∷ [];
}

four_variants_example :
    tagged_enum_to_union four_variants ≡ err (not_one_field 2, not_one_field 3 ∷ [])
four_variants_example = tagged_enum_to_union-eq four_variants
