-- ===== src/Fields.antt =====
-- internal/fields: the readers of the attributes of a resource type.
use scim_go.Prelude.{
  Text, Bool, false, Option, none, some, List, [], ◌∷◌, ◌++◌, ◌==◌, list_eq, nat_eq, bytes,
  if◌then◌else◌, map, get_or,
}
use scim_go.Runtime.{Runtime}
use scim_go.Core.Kinds.{type_complex, type_eq}
use scim_go.Core.Value.{Value, Object, null, array, object, fields, elements, items}
use scim_go.Core.Object.{get}
use scim_go.Core.Attribute.{Attribute, traits, sub_attributes, same_attribute}
use scim_go.Core.Coerce.{coerce}
use scim_go.Core.Schemas.{Schemas, extensions, common_attribute}
use scim_go.Value.{object_or_nil}

-- Field. The closures Raw and Holder are functions.
pub record Field : Type 0 where
  pub attribute : Attribute
  pub parent : Option Attribute
  pub raw : Object → Value
  pub holder : Object → Value

abbrev pub Fields : Type 0
Fields = List Field

-- ValuesOf
abbrev pub values_of : Value → List Value
values_of (array vs) = elements vs
values_of v = v ∷ []

abbrev array_elements : Value → List Value
array_elements (array vs) = elements vs
array_elements _ = []

module _ ⦃R : Runtime⦄ where
  -- coerced: nil where the coercion fails
  pub coerced : Attribute → Value → Value
  coerced a raw = get_or (coerce a raw) null

  coerce_each : Attribute → Value → Value
  unfolding coerced
  coerce_each a (array vs) = array (items (map (coerced a) (elements vs)))
  coerce_each a v = coerced a v

  -- Coerce
  unfoldable pub coerce_value : Attribute → Value → Value
  unfolding coerce_each
  coerce_value a raw = if (traits a).kind == type_complex then raw else coerce_each a raw

  -- Field.Elements, Field.Value and Field.Values
  unfoldable pub field_elements : Field → Object → List Value
  field_elements f d = array_elements (f.raw d)

  unfoldable pub field_value : Field → Object → Value
  unfolding coerce_value
  field_value f d = coerce_value f.attribute (f.raw d)

  unfoldable pub field_values : Field → Object → List Value
  unfolding field_value
  field_values f d = values_of (field_value f d)

  -- Field.IsList
  unfoldable pub is_list : Field → Bool
  is_list f = elim f.parent [ none ↦ (traits f.attribute).multi_valued | some _ ↦ false ]

  -- value.AsObject(v).Get(sub.Name)
  sub_value : Attribute → Value → Value
  sub_value sub v = get (object_or_nil v) (traits sub).name

  sub_raw : Field → Attribute → Object → Value
  unfolding sub_value
  sub_raw f sub d =
      if (traits f.attribute).multi_valued
      then array (items (map (sub_value sub) (array_elements (f.raw d))))
      else sub_value sub (f.raw d)

  -- Field.Sub
  unfoldable pub sub_field : Field → Attribute → Field
  unfolding sub_raw
  sub_field f sub = record {
    attribute = sub;
    parent = some f.attribute;
    raw = sub_raw f sub;
    holder = f.raw;
  }

  -- the field of an attribute whose holder `parent` reads
  pub top_field : (Object → Value) → Attribute → Field
  top_field parent a = record {
    attribute = a;
    parent = none;
    raw = λ d. get (object_or_nil (parent d)) (traits a).name;
    holder = parent;
  }

  -- what Fields.With adds
  unfoldable pub with_attributes : (Object → Value) → List Attribute → Fields
  unfolding top_field sub_field
  with_attributes parent [] = []
  with_attributes parent (a ∷ rest) =
      (top_field parent a ∷ map (sub_field (top_field parent a)) (sub_attributes a))
      ++ with_attributes parent rest

  extension_fields : Schemas → Fields
  extension_fields [] = []
  extension_fields (s ∷ schemas) =
      with_attributes (λ d. get d s.id) s.attributes ++ extension_fields schemas

  common_fields : List Text → Fields
  common_fields [] = []
  common_fields (name ∷ names) = elim (common_attribute name) [
    | none ↦ common_fields names
    | some a ↦ with_attributes (λ d. object (fields d)) (a ∷ []) ++ common_fields names
  ]

  base_attributes : Schemas → List Attribute
  base_attributes [] = []
  base_attributes (s ∷ _) = s.attributes

  -- New
  unfoldable pub new_fields : Schemas → Fields
  unfolding common_fields base_attributes extension_fields with_attributes
  new_fields schemas =
      common_fields (bytes "schemas" ∷ bytes "id" ∷ bytes "externalId" ∷ bytes "meta" ∷ [])
      ++ with_attributes (λ d. object (fields d)) (base_attributes schemas)
      ++ extension_fields (extensions schemas)

-- Fields.Lookup, by the pointer of the attribute
unfoldable pub lookup_field : Fields → Attribute → Option Field
lookup_field [] a = none
lookup_field (f ∷ fs) a = if same_attribute f.attribute a then some f else lookup_field fs a
