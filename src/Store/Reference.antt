-- ===== src/Store/Reference.antt =====
-- pkg/store/reference.go and unlink.go: the attributes of a resource type that point at resources.
use scim_go.Prelude.{
  Text, Bool, false, Option, none, some, List, [], ◌∷◌, ◌++◌, ◌==◌, list_eq, nat_eq, bytes,
  if◌then◌else◌, ◌&&◌, not, delete_func,
}
use scim_go.Runtime.{Runtime}
use scim_go.Core.Value.{Value, Object, text, array, object, end, entries, fields, elements, items}
use scim_go.Core.Object.{get, set, remove}
use scim_go.Core.Attribute.{Attribute, traits}
use scim_go.Core.Schemas.{Schema, Schemas, extensions, reference_attributes}

-- Reference: the attribute, its targets, and the extension that declares it
pub record Reference : Type 0 where
  pub attribute : Attribute
  pub targets : List Text
  pub extension : Option Schema

-- r.Name, Inverse, Soft, Types
abbrev pub name : Reference → Text
name r = (traits r.attribute).name

abbrev pub inverse_of : Reference → Text
inverse_of r = (traits r.attribute).inverse_of

abbrev pub inverse : Reference → Bool
inverse r = not (inverse_of r == [])

abbrev pub soft : Reference → Bool
soft r = not (traits r.attribute).multi_valued && not (inverse r)

abbrev pub types : Reference → List Text
types r = r.targets

module _ ⦃R : Runtime⦄ where
  of_schema : Option Schema → List (Attribute × List Text) → List Reference
  of_schema extension [] = []
  of_schema extension ((a, targets) ∷ rest) =
      record { attribute = a; targets = targets; extension = extension } ∷ of_schema extension rest

  of_schemas : Schema → Schemas → List Reference
  unfolding of_schema reference_attributes
  of_schemas first [] = []
  of_schemas first (s ∷ schemas) =
      of_schema (if s.address == first.address then none else some s)
        (reference_attributes (s ∷ []))
      ++ of_schemas first schemas

  -- ReferencesOf: those of the base schema carry no extension.
  unfoldable pub references_of : Schemas → List Reference
  unfolding of_schemas
  references_of [] = []
  references_of (b ∷ schemas) = of_schemas b (b ∷ schemas)

  -- reference.holder(object, false).Remove(attribute), in the object that holds the holder
  remove_held : Reference → Object → Text → Object
  remove_held r o attribute = elim r.extension [
    | none ↦ remove o attribute
    | some s ↦ elim (get o s.id) [
      | object fs ↦ set o s.id (object (fields (remove (entries fs) attribute)))
      | _ ↦ o
    ]
  ]

  is_text : Text → Value → Bool
  is_text s (text t) = t == s
  is_text s _ = false

  listed_schemas : Value → List Value
  listed_schemas (array vs) = elements vs
  listed_schemas _ = []

  -- the body of the loop of `prune`: an emptied extension leaves the object and its "schemas"
  prune_one : Schema → Object → Object
  unfolding is_text listed_schemas
  prune_one s o = elim (get o s.id) [
    | object end ↦
        let o' = remove o s.id in
        set o' (bytes "schemas")
          (array (items (delete_func (is_text s.id) (listed_schemas (get o' (bytes "schemas"))))))
    | _ ↦ o
  ]

  prune : Schemas → Object → Object
  prune [] o = o
  prune (s ∷ schemas) o = prune schemas (prune_one s o)

  unlink_refs : List Reference → Object → Text → Object
  unlink_refs [] o attribute = o
  unlink_refs (r ∷ rs) o attribute =
      unlink_refs rs (if soft r && (name r == attribute) then remove_held r o attribute else o)
        attribute

  -- Unlink
  unfoldable pub unlink : Schemas → Object → Text → Object
  unfolding unlink_refs remove_held prune prune_one
  unlink schemas o attribute =
      prune (extensions schemas) (unlink_refs (references_of schemas) o attribute)
