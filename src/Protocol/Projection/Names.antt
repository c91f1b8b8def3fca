-- ===== src/Protocol/Projection/Names.antt =====
-- pkg/protocol/projection.go: the names that a client asks for, or asks to leave out.
pub mod Exclusive
use scim_go.Prelude.{
  Text, Bool, true, false, Option, none, some, List, [], ◌∷◌, ◌++◌, ◌==◌, list_eq, nat_eq, bytes,
  if◌then◌else◌, ◌&&◌, ◌||◌, not, contains, ◌≡◌, refl, inl, inr, arith, is_some, Bool-cases,
}
use scim_go.Runtime.{Runtime}
use scim_go.Errors.{Result, ok, err, err_invalid_value}
use scim_go.Core.Schemas.{Schema, Schemas, lookup_schema, resolve}
use scim_go.Filter.Path.{AttrPath}
use scim_go.Filter.Parse.{new_attr_path}
use scim_go.Protocol.Projection.{Projection, qualified_key}

-- checkAttributes
unfoldable pub check_attributes : List Text → List Text → Bool
check_attributes (a ∷ attributes) (e ∷ excluded) = false
check_attributes _ _ = true

-- one step of the loop of qualify: a name that is not known, or is there, adds nothing
unfoldable pub add_name : List Text → Option Text → List Text
add_name out none = out
add_name out (some name) = if contains name out then out else out ++ name ∷ []

module _ ⦃R : Runtime⦄ where
  qualified_path : Schemas → Schema → AttrPath → Option Text
  qualified_path schemas schema path =
      if is_some (resolve schemas schema.id path.name path.sub_attribute)
      then some (
          if path.sub_attribute == []
          then qualified_key schema.id path.name
          else qualified_key schema.id path.name ++ bytes "." ++ R.to_lower path.sub_attribute)
      else none

  path_name : Schemas → AttrPath → Result (Option Text)
  unfolding qualified_path
  path_name schemas path = elim (lookup_schema schemas path.uri) [
    | none ↦ err err_invalid_value
    | some schema ↦ ok (qualified_path schemas schema path)
  ]

  -- qualifyName: `none` for a name that is not known
  unfoldable pub qualify_name : Schemas → Text → Result (Option Text)
  unfolding path_name
  qualify_name schemas raw = elim (lookup_schema schemas raw) [
    | some schema ↦ ok (some (R.to_lower schema.id))
    | none ↦ elim (new_attr_path raw) [
      | inl e ↦ err err_invalid_value
      | inr path ↦ path_name schemas path
    ]
  ]

  -- the loop of qualify
  unfoldable pub qualify_from : Schemas → List Text → List Text → Result (List Text)
  qualify_from schemas out [] = ok out
  qualify_from schemas out (raw ∷ list) = elim (qualify_name schemas raw) [
    | err e ↦ err e
    | ok name ↦ qualify_from schemas (add_name out name) list
  ]

  unfoldable pub some_names : Result (List Text) → Result (Option (List Text))
  some_names (err e) = err e
  some_names (ok names) = ok (some names)

  -- qualify: `none` for a nil list of names
  unfoldable pub qualify : Schemas → List Text → Result (Option (List Text))
  qualify schemas [] = ok none
  qualify schemas (raw ∷ list) = some_names (qualify_from schemas [] (raw ∷ list))

  unfoldable pub names_or_nil : Option (List Text) → List Text
  names_or_nil none = []
  names_or_nil (some names) = names

  -- newProjection
  unfoldable pub new_projection : Schemas → List Text → List Text → Result Projection
  new_projection schemas attributes excluded =
      if not (check_attributes attributes excluded)
      then err err_invalid_value
      else elim (qualify schemas attributes) [
        | err e ↦ err e
        | ok included ↦ elim (qualify schemas excluded) [
          | err e ↦ err e
          | ok left_out ↦ ok (record {
            schemas = schemas;
            included = included;
            excluded = names_or_nil left_out;
            written = [];
          })
        ]
      ]
