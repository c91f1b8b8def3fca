-- ===== src/Core/Attribute.antt =====
-- pkg/core/attribute.go and attributes.go: attributes, their builders and the lookup by name. Go
-- compares attributes by pointer, so each has an address, which its allocation chooses.
use scim_go.Prelude.{
  ℕ, ◌+◌, Text, Bool, true, false, Option, none, some, List, [], ◌∷◌, ◌++◌, ◌==◌, list_eq, nat_eq,
  bytes, ◌||◌, if◌then◌else◌, delete_func, not,
}
use scim_go.Runtime.{Runtime, equal_fold}
use scim_go.Core.Kinds.{
  AttributeType, type_string, type_boolean, type_complex, type_reference, type_unset, type_eq,
  Mutability, mutability_unset, read_write, immutable, read_only, write_only, Returned,
  returned_unset, returned_default, Uniqueness, uniqueness_unset, uniqueness_none,
}

-- The fields of the struct but for the sub-attributes.
pub record Traits : Type 0 where
  pub address : ℕ
  pub name : Text
  pub kind : AttributeType
  pub multi_valued : Bool
  pub description : Text
  pub required : Bool
  pub canonical_values : List Text
  pub case_exact : Bool
  pub mutability : Mutability
  pub returned : Returned
  pub uniqueness : Uniqueness
  pub reference_types : List Text
  pub inverse_of : Text

mutual
  pub data Attribute : Type 0 where
    attribute : Traits → Attributes → Attribute

  pub data Attributes : Type 0 where
    no_attributes : Attributes
    more_attributes : Attribute → Attributes → Attributes

abbrev pub traits : Attribute → Traits
traits (attribute t subs) = t

abbrev pub list_of : Attributes → List Attribute
list_of no_attributes = []
list_of (more_attributes a rest) = a ∷ list_of rest

abbrev pub attributes_of : List Attribute → Attributes
attributes_of [] = no_attributes
attributes_of (a ∷ rest) = more_attributes a (attributes_of rest)

abbrev pub sub_attributes : Attribute → List Attribute
sub_attributes (attribute t subs) = list_of subs

-- Go's `==` on *Attribute
abbrev pub same_attribute : Attribute → Attribute → Bool
same_attribute a b = (traits a).address == (traits b).address

-- &Attribute{}
abbrev pub zero_traits : ℕ → Traits
zero_traits address = record {
  address = address;
  name = [];
  kind = type_unset;
  multi_valued = false;
  description = [];
  required = false;
  canonical_values = [];
  case_exact = false;
  mutability = mutability_unset;
  returned = returned_unset;
  uniqueness = uniqueness_unset;
  reference_types = [];
  inverse_of = [];
}

unfoldable pub new_attribute : ℕ → Text → AttributeType → Attribute
new_attribute address name kind =
    let t = zero_traits address in
    attribute
      (record t {
        name = name;
        kind = kind;
        mutability = read_write;
        returned = returned_default;
        uniqueness = uniqueness_none;
      })
      no_attributes

unfoldable pub as_required : Attribute → Attribute
as_required (attribute t subs) = attribute (record t { required = true }) subs

unfoldable pub as_multi_valued : Attribute → Attribute
as_multi_valued (attribute t subs) = attribute (record t { multi_valued = true }) subs

unfoldable pub as_case_exact : Attribute → Attribute
as_case_exact (attribute t subs) = attribute (record t { case_exact = true }) subs

unfoldable pub described_as : Text → Attribute → Attribute
described_as d (attribute t subs) = attribute (record t { description = d }) subs

unfoldable pub as_immutable : Attribute → Attribute
as_immutable (attribute t subs) = attribute (record t { mutability = immutable }) subs

unfoldable pub as_read_only : Attribute → Attribute
as_read_only (attribute t subs) = attribute (record t { mutability = read_only }) subs

unfoldable pub as_write_only : Attribute → Attribute
as_write_only (attribute t subs) = attribute (record t { mutability = write_only }) subs

unfoldable pub returned_as : Returned → Attribute → Attribute
returned_as r (attribute t subs) = attribute (record t { returned = r }) subs

unfoldable pub suggesting : List Text → Attribute → Attribute
suggesting values (attribute t subs) = attribute (record t { canonical_values = values }) subs

unfoldable pub referencing : List Text → Attribute → Attribute
referencing types (attribute t subs) = attribute (record t { reference_types = types }) subs

unfoldable pub as_inverse_of : Text → Attribute → Attribute
as_inverse_of name (attribute t subs) = attribute (record t { inverse_of = name }) subs

unfoldable pub unique_on : Uniqueness → Attribute → Attribute
unique_on u (attribute t subs) = attribute (record t { uniqueness = u }) subs

unfoldable pub with_subs : List Attribute → Attribute → Attribute
with_subs subs (attribute t _) = attribute t (attributes_of subs)

-- `elements`: the addresses are those of the attribute and of its three own sub-attributes.
unfoldable pub element_attribute : ℕ → Text → Attribute → List Text → Attribute
unfolding new_attribute as_multi_valued with_subs suggesting
element_attribute address name value types =
    with_subs
      (value
        ∷ new_attribute (address + 1) (bytes "display") type_string
        ∷ suggesting types (new_attribute (address + 2) (bytes "type") type_string)
        ∷ new_attribute (address + 3) (bytes "primary") type_boolean
        ∷ [])
      (as_multi_valued (new_attribute address name type_complex))

unfoldable pub new_multi_valued_attribute : ℕ → Text → List Text → Attribute
unfolding element_attribute
new_multi_valued_attribute address name types =
    let a =
      element_attribute address name (new_attribute (address + 4) (bytes "value") type_string)
        types in
    with_subs (sub_attributes a ++ new_attribute (address + 5) (bytes "$ref") type_reference ∷ []) a

-- lookupFold, which the lookups of attributes and of schemas share
unfoldable pub lookup_fold {ℓ} :
    ⦃R : Runtime⦄ → {A : Type ℓ} → List A → Text → (A → Text) → Option A
lookup_fold [] target name_of = none
lookup_fold (x ∷ xs) target name_of =
    if equal_fold (name_of x) target then some x else lookup_fold xs target name_of

module _ ⦃R : Runtime⦄ where
  -- Attributes.Lookup
  abbrev pub lookup_attribute : List Attribute → Text → Option Attribute
  lookup_attribute list name = lookup_fold list name (λ a. (traits a).name)

  -- Attribute.SubAttribute
  abbrev pub sub_attribute : Attribute → Text → Option Attribute
  sub_attribute a name = lookup_attribute (sub_attributes a) name

  -- ReferenceTargets: every reference type but "external" and "uri"
  unfoldable pub reference_targets : Attribute → List Text
  unfolding lookup_fold
  reference_targets a =
      if not ((traits a).kind == type_complex) then [] else elim (sub_attribute a (bytes "$ref")) [
        | none ↦ []
        | some ref ↦
            delete_func (λ t. t == bytes "external" || t == bytes "uri")
              (traits ref).reference_types
      ]
