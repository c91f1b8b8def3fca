-- ===== src/Core/Schemas.antt =====
-- pkg/core/schema.go, schemas.go, common_attributes.go and reference.go: schemas and the resolution
-- of a name to an attribute. A nil *Attribute or *Schema is `none`.
pub mod Resolution
use scim_go.Prelude.{
  ℕ, Text, Bool, true, false, Option, none, some, List, [], ◌∷◌, ◌++◌, ◌==◌, list_eq, nat_eq, bytes,
  if◌then◌else◌, not, ◌&&◌,
}
use scim_go.Runtime.{Runtime}
use scim_go.Core.Kinds.{type_string, type_complex, type_date_time, type_reference, returned_always}
use scim_go.Core.Attribute.{
  Attribute, traits, lookup_fold, lookup_attribute, sub_attribute, new_attribute, as_multi_valued,
  as_read_only, as_case_exact, returned_as, with_subs, reference_targets,
}

pub record Schema : Type 0 where
  pub address : ℕ
  pub id : Text
  pub name : Text
  pub description : Text
  pub attributes : List Attribute

-- The base schema, then its extensions.
abbrev pub Schemas : Type 0
Schemas = List Schema

-- The addresses below 16 are those of the common attributes.
unfoldable pub common_attributes : List Attribute
unfolding new_attribute as_multi_valued as_read_only as_case_exact returned_as with_subs
common_attributes =
    returned_as returned_always
      (as_read_only (as_multi_valued (new_attribute 1 (bytes "schemas") type_string)))
    ∷ returned_as returned_always
        (as_read_only (as_case_exact (new_attribute 2 (bytes "id") type_string)))
    ∷ as_case_exact (new_attribute 3 (bytes "externalId") type_string)
    ∷ with_subs
        (as_read_only (as_case_exact (new_attribute 5 (bytes "resourceType") type_string))
          ∷ as_read_only (new_attribute 6 (bytes "created") type_date_time)
          ∷ as_read_only (new_attribute 7 (bytes "lastModified") type_date_time)
          ∷ as_read_only (as_case_exact (new_attribute 8 (bytes "location") type_reference))
          ∷ as_read_only (as_case_exact (new_attribute 9 (bytes "version") type_string))
          ∷ [])
        (as_read_only (new_attribute 4 (bytes "meta") type_complex))
    ∷ []

-- Schemas.Base
abbrev pub base : Schemas → Option Schema
base [] = none
base (s ∷ _) = some s

-- Schemas.Extensions
abbrev pub extensions : Schemas → Schemas
extensions [] = []
extensions (_ ∷ s) = s

-- Schemas.IsExtension, of a schema that is not nil
abbrev pub is_extension : Schemas → Schema → Bool
is_extension [] schema = true
is_extension (b ∷ _) schema = not (schema.address == b.address)

module _ ⦃R : Runtime⦄ where
  -- CommonAttribute
  abbrev pub common_attribute : Text → Option Attribute
  common_attribute name = lookup_attribute common_attributes name

  -- Schemas.Lookup
  unfoldable pub lookup_schema : Schemas → Text → Option Schema
  lookup_schema s uri = if uri == [] then base s else lookup_fold s uri (λ schema. schema.id)

  -- Schema.Resolve
  unfoldable pub resolve_in : Schema → Text → Option Attribute
  resolve_in schema name = elim (common_attribute name) [
    | some a ↦ some a
    | none ↦ lookup_attribute schema.attributes name
  ]

  -- the attribute that the schema gives for a name, before the sub-attribute is taken
  unfoldable pub resolve_root : Schemas → Schema → Text → Option Attribute
  resolve_root s schema name =
      if is_extension s schema
      then lookup_attribute schema.attributes name
      else resolve_in schema name

  -- Schemas.Resolve
  unfoldable pub resolve : Schemas → Text → Text → Text → Option Attribute
  resolve s uri name sub = elim (lookup_schema s uri) [
    | none ↦ none
    | some schema ↦ elim (resolve_root s schema name) [
      | none ↦ none
      | some a ↦ if sub == [] then some a else sub_attribute a sub
    ]
  ]

  -- the inner loop: the attributes of one schema, each with its targets
  references_in : List Attribute → List (Attribute × List Text)
  references_in [] = []
  references_in (a ∷ rest) =
      let targets = reference_targets a in
      if targets == [] then references_in rest else (a, targets) ∷ references_in rest

  -- Schemas.ReferenceAttributes
  unfoldable pub reference_attributes : Schemas → List (Attribute × List Text)
  unfolding references_in reference_targets
  reference_attributes [] = []
  reference_attributes (s ∷ schemas) = references_in s.attributes ++ reference_attributes schemas
