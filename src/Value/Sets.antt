-- ===== src/Value/Sets.antt =====
-- internal/value/set.go: the elements of a multi-valued attribute that were seen. Elements that are
-- objects are held by their identity, others in buckets.
pub mod Refinement
pub mod Distinct
use scim_go.Prelude.{
  Text, Bool, true, false, Option, none, some, List, [], ◌∷◌, ◌++◌, ◌==◌, list_eq, nat_eq, bytes,
  if◌then◌else◌, not, any, get_or, is_some, ◌||◌,
}
use scim_go.Prelude.Dict.{Dict, lookup, insert}
use scim_go.Runtime.{Runtime}
use scim_go.Core.Value.{
  Value, Items, Fields, Object, null, text, boolean, number, int64, float64, instant, array, object,
  nil, cons, end, field, entries, fields,
}
use scim_go.Core.Attribute.{Attribute, attribute, no_attributes, more_attributes}
use scim_go.Core.Object.{get}
use scim_go.Core.Coerce.{coerce, fold}
use scim_go.Value.{as_object, object_or_nil, is_true}
use scim_go.Value.Compare.{equal}
use scim_go.Value.Identity.{Formats, identity, normalize_zero}

-- Set. `objects` or `buckets` is nil in Go, by KeyedByIdentity of the attribute, and empty here.
pub record ValueSet : Type 0 where
  pub of_attribute : Attribute
  pub objects : Dict Text Object
  pub buckets : Dict Text (List Value)

-- KeyedByIdentity
unfoldable pub keyed_by_identity : Attribute → Bool
keyed_by_identity (attribute t no_attributes) = false
keyed_by_identity (attribute t (more_attributes a rest)) = true

-- normalizeZeros, which is `transform` with normalizeZero on leaves
unfoldable mutual
  pub normalize_zeros : Value → Value
  normalize_zeros (array vs) = array (normalize_items vs)
  normalize_zeros (object fs) = object (normalize_fields fs)
  normalize_zeros (float64 f) = float64 (normalize_zero f)
  normalize_zeros v = v

  pub normalize_items : Items → Items
  normalize_items nil = nil
  normalize_items (cons v vs) = cons (normalize_zeros v) (normalize_items vs)

  pub normalize_fields : Fields → Fields
  normalize_fields end = end
  normalize_fields (field k v fs) = field k (normalize_zeros v) (normalize_fields fs)

module _ ⦃F : Formats⦄ ⦃R : Runtime⦄ where
  -- bucketKey, of the value as `typed` gives it
  typed_key : Attribute → Value → Text
  typed_key a (object fs) = F.marshal (normalize_zeros (object fs))
  typed_key a (array vs) = F.marshal (normalize_zeros (array vs))
  typed_key a (instant t) = F.format_instant t
  typed_key a (float64 f) = F.marshal (float64 (normalize_zero f))
  typed_key a v = F.marshal (fold a v)

  -- bucketKey
  unfoldable pub bucket_key : Attribute → Value → Text
  unfolding typed_key
  bucket_key a v = typed_key a (get_or (coerce a v) v)

  -- Set.addObject: the first object with an identity stays.
  unfoldable pub add_object : ValueSet → Option Object → ValueSet
  add_object s none = s
  add_object s (some o) =
      let id = identity s.of_attribute o in
      if id == [] || is_some (lookup id s.objects)
      then s
      else record s { objects = insert id o s.objects }

  -- Set.Add, of one element
  unfoldable pub add_element : ValueSet → Value → ValueSet
  add_element s element =
      let key = bucket_key s.of_attribute element in
      if keyed_by_identity s.of_attribute then add_object s (as_object element) else record s {
        buckets = insert key (get_or (lookup key s.buckets) [] ++ element ∷ []) s.buckets;
      }

  -- Set.Add
  unfoldable pub add_elements : ValueSet → List Value → ValueSet
  add_elements s [] = s
  add_elements s (v ∷ vs) = add_elements (add_element s v) vs

  -- NewSet
  unfoldable pub new_set : Attribute → List Value → ValueSet
  new_set a elements =
      add_elements (record { of_attribute = a; objects = []; buckets = [] }) elements

  -- Set.Find
  unfoldable pub find_object : ValueSet → Object → Option Object
  find_object s element = lookup (identity s.of_attribute element) s.objects

  -- Set.Contains
  unfoldable pub contains_element : ValueSet → Value → Bool
  contains_element s want =
      if keyed_by_identity s.of_attribute
      then is_some (find_object s (object_or_nil want))
      else any (λ element. equal s.of_attribute element want)
          (get_or (lookup (bucket_key s.of_attribute want) s.buckets) [])

  -- isPrimary
  unfoldable pub has_primary : Object → Bool
  has_primary o = is_true (get o (bytes "primary"))

  -- kept["primary"] = true, in the set and in the list that holds the same object: of the elements
  -- that were kept, each with its identity, the one that the set holds under that identity
  unfoldable pub promote_kept : Text → List (Text × Value) → List (Text × Value)
  promote_kept id [] = []
  promote_kept id ((k, object fs) ∷ kept) =
      if k == id
      then (k, object (fields (insert (bytes "primary") (boolean true) (entries fs))))
        ∷ promote_kept id kept
      else (k, object fs) ∷ promote_kept id kept
  promote_kept id ((k, v) ∷ kept) = (k, v) ∷ promote_kept id kept

  -- the identity under which the set holds an element
  unfoldable pub held_under : Attribute → Value → Text
  held_under a (object fs) = if keyed_by_identity a then identity a (entries fs) else []
  held_under a _ = []

  -- Set.promotePrimary
  unfoldable pub promote_primary :
      ValueSet → List (Text × Value) → Value → ValueSet × List (Text × Value)
  promote_primary s kept element =
      let o = object_or_nil element in
      let id = identity s.of_attribute o in
      elim (find_object s o) [
        | none ↦ (s, kept)
        | some held ↦
            if has_primary o
            then (
              record s {
                objects = insert id (insert (bytes "primary") (boolean true) held) s.objects;
              },
              promote_kept id kept,
            )
            else (s, kept)
      ]

  -- Set.admit, in the loop of Unique
  unfoldable pub unique_loop : ValueSet → List (Text × Value) → List Value → List (Text × Value)
  unique_loop s kept [] = kept
  unique_loop s kept (v ∷ vs) = elim (contains_element s v) [
    | false ↦ unique_loop (add_element s v) (kept ++ (held_under s.of_attribute v, v) ∷ []) vs
    | true ↦ let next = promote_primary s kept v in unique_loop next.0 next.1 vs
  ]

  unfoldable pub kept_values : List (Text × Value) → List Value
  kept_values [] = []
  kept_values ((k, v) ∷ kept) = v ∷ kept_values kept

  -- Unique
  unfoldable pub unique : Attribute → List Value → List Value
  unique a [] = []
  unique a (v ∷ []) = v ∷ []
  unique a (v ∷ w ∷ vs) = kept_values (unique_loop (new_set a []) [] (v ∷ w ∷ vs))
