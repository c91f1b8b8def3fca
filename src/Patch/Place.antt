-- ===== src/Patch/Place.antt =====
-- pkg/patch: the objects of a resource that a path leads to. Go holds pointers to them; a place says
-- where one is, in the object that the path starts from: the resource or one of its extensions.
use scim_go.Prelude.{
  ℕ, zero, suc, Text, none, some, List, [], ◌∷◌, ◌==◌, list_eq, nat_eq, if◌then◌else◌,
}
use scim_go.Runtime.{Runtime}
use scim_go.Errors.{Result, ok}
use scim_go.Core.Value.{Value, Object, null, array, object, elements, items, entries, fields}
use scim_go.Core.Object.{get, set, remove}
use scim_go.Value.{as_object, object_or_nil, all_unassigned}
use scim_go.Patch.Writing.{child}

pub data Place : Type 0 where
  whole : Place
  nested : Text → Place
  element : Text → ℕ → Place

-- list, _ := v.([]any)
unfoldable pub list_of : Value → List Value
list_of (array vs) = elements vs
list_of _ = []

unfoldable pub nth : List Value → ℕ → Value
nth [] i = null
nth (v ∷ vs) zero = v
nth (v ∷ vs) (suc i) = nth vs i

unfoldable pub replace_nth : List Value → ℕ → Value → List Value
replace_nth [] i w = []
replace_nth (v ∷ vs) zero w = w ∷ vs
replace_nth (v ∷ vs) (suc i) w = v ∷ replace_nth vs i w

-- an object where there is one, changed
change_object : (Object → Object) → Value → Value
change_object f (object fs) = object (fields (f (entries fs)))
change_object f v = v

module _ ⦃R : Runtime⦄ where
  -- the object at a place
  unfoldable pub read_place : Object → Place → Object
  read_place c whole = c
  read_place c (nested name) = object_or_nil (get c name)
  read_place c (element name i) = object_or_nil (nth (list_of (get c name)) i)

  -- what is at a place, once it is another object
  unfoldable pub write_place : Object → Place → Object → Object
  write_place c whole o = o
  write_place c (nested name) o = set c name (object (fields o))
  write_place c (element name i) o =
      set c name (array (items (replace_nth (list_of (get c name)) i (object (fields o)))))

  -- target.container, to read: nil is an object without names
  unfoldable pub container : Object → Text → Object
  container root extension = if extension == [] then root else object_or_nil (get root extension)

  -- target.container, to write: the extension is made where it is not there
  unfoldable pub made_container : Object → Text → Result (Object × Object)
  made_container root extension = if extension == [] then ok (root, root) else child root extension

  -- the resource, once its container is another object; a nil container stays nil
  unfoldable pub with_container : Object → Text → Object → Object
  unfolding change_object
  with_container root extension c =
      if extension == [] then c else elim (as_object (get root extension)) [
        | none ↦ root
        | some _ ↦ set root extension (object (fields c))
      ]

  -- target.unassignEmptyExtension
  unfoldable pub unassign_empty_extension : Object → Text → Object
  unassign_empty_extension root extension =
      if extension == []
      then root
      else if all_unassigned (fields (container root extension))
      then remove root extension
      else root
