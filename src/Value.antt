-- ===== src/Value.antt =====
-- internal/value/value.go: questions about values. The laws are in the modules below.
pub mod Compare
pub mod Matching
pub mod Identity
pub mod Sets
use scim_go.Prelude.{
  ℕ, Text, Bool, true, false, Option, none, some, List, [], ◌∷◌, ◌==◌, list_eq, nat_eq, bytes,
  if◌then◌else◌, ◌&&◌, ◌||◌, not,
}
use scim_go.Runtime.{Runtime, equal_fold}
use scim_go.Core.Kinds.{
  type_boolean, type_eq, write_only, returned_never, mutability_eq, returned_eq,
}
use scim_go.Core.Value.{
  Value, Items, Fields, Object, null, text, boolean, array, object, nil, cons, end, field, entries,
}
use scim_go.Core.Object.{get}
use scim_go.Core.Attribute.{Attribute, traits}
use scim_go.Core.Coerce.{fold}

-- IsUnassigned
unfoldable pub is_unassigned : Value → Bool
is_unassigned null = true
is_unassigned (text s) = s == []
is_unassigned (array nil) = true
is_unassigned (object end) = true
is_unassigned _ = false

-- AllUnassigned, on an object and on one value of it
unfoldable mutual
  pub all_unassigned : Fields → Bool
  all_unassigned end = true
  all_unassigned (field k v fs) = holds_nothing v && all_unassigned fs

  pub holds_nothing : Value → Bool
  holds_nothing (object fs) = all_unassigned fs || is_unassigned (object fs)
  holds_nothing v = is_unassigned v

-- AsObject: nil where the value is no object
unfoldable pub as_object : Value → Option Object
as_object (object fs) = some (entries fs)
as_object _ = none

-- AsObject, where the caller reads from the result: a nil map holds nothing.
abbrev pub object_or_nil : Value → Object
object_or_nil (object fs) = entries fs
object_or_nil _ = []

-- v == true, v.(string)
abbrev pub is_true : Value → Bool
is_true (boolean b) = b
is_true _ = false

abbrev text_of : Value → Text
text_of (text s) = s
text_of _ = []

-- attribute != nil && (writeOnly or returned never)
unfoldable pub hides : Option Attribute → Bool
hides none = false
hides (some a) = (traits a).mutability == write_only || (traits a).returned == returned_never

-- Hidden
unfoldable pub hidden : Option Attribute → Option Attribute → Bool
unfolding hides
hidden parent a = hides parent || hides a

module _ ⦃R : Runtime⦄ where
  -- Key: the "value" sub-attribute, where it is a text that is not empty
  unfoldable pub value_key : Object → Option Text
  value_key element =
      let k = text_of (get element (bytes "value")) in if k == [] then none else some k

  -- Primary
  unfoldable pub primary : Value → Bool
  primary element = is_true (get (object_or_nil element) (bytes "primary"))

  -- IsPrimary
  unfoldable pub is_primary : Attribute → Bool
  is_primary a = (traits a).kind == type_boolean && equal_fold (traits a).name (bytes "primary")

  -- Defaulted
  unfoldable pub defaulted : Attribute → Value → Value
  defaulted a null = if is_primary a then boolean false else null
  defaulted a v = v

  -- Observed
  unfoldable pub observed : Attribute → Value → Value
  observed a raw = fold a (defaulted a raw)

-- Clone, which is `transform` with the identity on leaves
unfoldable mutual
  pub clone : Value → Value
  clone (array vs) = array (clone_items vs)
  clone (object fs) = object (clone_fields fs)
  clone v = v

  pub clone_items : Items → Items
  clone_items nil = nil
  clone_items (cons v vs) = cons (clone v) (clone_items vs)

  pub clone_fields : Fields → Fields
  clone_fields end = end
  clone_fields (field k v fs) = field k (clone v) (clone_fields fs)
