-- ===== src/Protocol/Projection.antt =====
-- pkg/protocol/projection.go: which attributes a response shows. A Go map is its entries, so a map
-- that is pruned in place is the list of the entries that stay.
pub mod Hidden
pub mod Disclosure
pub mod Names
use scim_go.Prelude.{
  Text, Bool, true, false, Option, none, some, List, [], ◌∷◌, ◌++◌, ◌==◌, list_eq, nat_eq, bytes,
  if◌then◌else◌, ◌&&◌, ◌||◌, not, any, has_prefix, contains,
}
use scim_go.Runtime.{Runtime}
use scim_go.Core.Kinds.{returned_always, returned_request, returned_eq}
use scim_go.Core.Value.{
  Value, Items, Fields, Object, null, text, boolean, number, int64, float64, instant, array, object,
  nil, cons, end, field,
}
use scim_go.Core.Attribute.{
  Attribute, attribute, no_attributes, more_attributes, traits, sub_attributes, sub_attribute,
  lookup_attribute,
}
use scim_go.Core.Schemas.{Schema, Schemas, is_extension, lookup_schema, resolve}
use scim_go.Value.{hidden}

-- Projection, without `plain`; a nil list of included names is `none`, and differs from an empty one
pub record Projection : Type 0 where
  pub schemas : Schemas
  pub included : Option (List Text)
  pub excluded : List Text
  pub written : List Text

-- names.covers
unfoldable pub covers : List Text → Text → Bool
covers n name =
    any (λ e. name == e || has_prefix name (e ++ bytes ":") || has_prefix name (e ++ bytes ".")) n

-- names.within
unfoldable pub within : List Text → Text → Bool
within n name = any (λ e. has_prefix e (name ++ bytes ".")) n

-- Projection.requested
unfoldable pub requested : Projection → Text → Bool
requested p name = elim p.included [
  | some n ↦ contains name n || within n name
  | none ↦ (covers p.written name || within p.written name) && not (covers p.excluded name)
]

-- the last two cases of Projection.returns
unfoldable pub selected : Projection → Text → Bool
selected p name = elim p.included [
  | some n ↦ covers n name || within n name
  | none ↦ not (covers p.excluded name)
]

-- Projection.returns
unfoldable pub returns : Projection → Attribute → Text → Bool
returns p a name =
    if hidden none (some a)
    then false
    else if (traits a).returned == returned_always
    then true
    else if (traits a).returned == returned_request
    then requested p name
    else selected p name

-- returnsAlways
unfoldable pub returns_always : Attribute → Bool
returns_always a =
    not (hidden none (some a))
    && any (λ s. (traits s).returned == returned_always) (sub_attributes a)

-- len(attribute.SubAttributes) == 0
unfoldable pub is_simple : Attribute → Bool
is_simple (attribute t no_attributes) = true
is_simple (attribute t (more_attributes a rest)) = false

-- an object, and whether anything is left in it
unfoldable pub filled : Fields → Option Value
filled end = none
filled (field k v fs) = some (object (field k v fs))

-- a list, and whether anything is left in it
unfoldable pub kept : Items → Option Value
kept nil = none
kept (cons v vs) = some (array (cons v vs))

module _ ⦃R : Runtime⦄ where
  -- the fields of alwaysIn that prune keeps
  unfoldable pub always_fields : Attribute → Fields → Fields
  always_fields a end = end
  always_fields a (field k v fs) =
      let rest = always_fields a fs in
      elim (sub_attribute a k) [
        | none ↦ rest
        | some s ↦ if (traits s).returned == returned_always then field k v rest else rest
      ]

  -- alwaysIn
  unfoldable pub always_in : Attribute → Value → Option Value
  always_in a (object fs) = filled (always_fields a fs)
  always_in a _ = none

  -- keepEach with alwaysIn
  unfoldable pub always_items : Attribute → Items → Items
  always_items a nil = nil
  always_items a (cons v vs) =
      let rest = always_items a vs in elim (always_in a v) [ none ↦ rest | some w ↦ cons w rest ]

  -- the last lines of always
  unfoldable pub always_value : Attribute → Value → Option Value
  always_value a (array vs) = kept (always_items a vs)
  always_value a v = always_in a v

  -- always
  unfoldable pub always : Attribute → Value → Option Value
  always a v = if returns_always a then always_value a v else none

  -- qualifiedKey
  unfoldable pub qualified_key : Text → Text → Text
  qualified_key uri name = R.to_lower uri ++ bytes ":" ++ R.to_lower name

  -- Projection.value and Projection.object, by recursion on the value
  unfoldable mutual
    pub shown : Projection → Attribute → Text → Value → Option Value
    shown p a name (object fs) =
        let inner = shown_fields p a name fs in
        if not (returns p a name)
        then always a (object fs)
        else if is_simple a
        then some (object fs)
        else filled inner
    shown p a name (array vs) =
        let inner = shown_items p a name vs in
        if not (returns p a name)
        then always a (array vs)
        else if is_simple a
        then some (array vs)
        else kept inner
    shown p a name v = if returns p a name then some v else always a v

    -- keepEach with Projection.object
    pub shown_items : Projection → Attribute → Text → Items → Items
    shown_items p a name nil = nil
    shown_items p a name (cons (object fs) vs) =
        let rest = shown_items p a name vs in
        elim (filled (shown_fields p a name fs)) [ none ↦ rest | some w ↦ cons w rest ]
    shown_items p a name (cons v vs) = cons v (shown_items p a name vs)

    -- prune, in Projection.object
    pub shown_fields : Projection → Attribute → Text → Fields → Fields
    shown_fields p a name end = end
    shown_fields p a name (field k v fs) =
        let rest = shown_fields p a name fs in
        elim (sub_attribute a k) [
          | none ↦ rest
          | some s ↦ elim (shown p s (name ++ bytes "." ++ R.to_lower (traits s).name) v) [
            | none ↦ rest
            | some w ↦ field k w rest
          ]
        ]

  -- prune, in Projection.extension
  unfoldable pub extension_fields : Projection → Schema → Fields → Fields
  extension_fields p schema end = end
  extension_fields p schema (field k v fs) =
      let rest = extension_fields p schema fs in
      elim (lookup_attribute schema.attributes k) [
        | none ↦ rest
        | some a ↦ elim (shown p a (qualified_key schema.id (traits a).name) v) [
          | none ↦ rest
          | some w ↦ field k w rest
        ]
      ]

  -- Projection.extension
  unfoldable pub extension_value : Projection → Schema → Value → Option Value
  extension_value p schema (object fs) = filled (extension_fields p schema fs)
  extension_value p schema _ = none

  -- Projection.project, where there is a base schema
  unfoldable pub project_with : Projection → Schema → Text → Value → Option Value
  project_with p base key item = elim (resolve p.schemas [] key []) [
    | some a ↦ shown p a (qualified_key base.id (traits a).name) item
    | none ↦ elim (lookup_schema p.schemas key) [
      | none ↦ none
      | some schema ↦ if is_extension p.schemas schema then extension_value p schema item else none
    ]
  ]

  unfoldable pub project_in : Projection → Schemas → Text → Value → Option Value
  project_in p [] key item = some item
  project_in p (base ∷ _) key item = project_with p base key item

  -- Projection.project
  unfoldable pub project : Projection → Text → Value → Option Value
  project p key item = project_in p p.schemas key item

  -- prune(document, v.projection.project)
  unfoldable pub projected : Projection → Object → Object
  projected p [] = []
  projected p ((key, item) ∷ document) =
      let rest = projected p document in
      elim (project p key item) [ none ↦ rest | some v ↦ (key, v) ∷ rest ]
