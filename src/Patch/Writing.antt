-- ===== src/Patch/Writing.antt =====
-- pkg/patch/writer.go and primary.go: what a write makes of a value, and the one primary element.
use scim_go.Prelude.{
  ℕ, zero, suc, ◌+◌, Text, Bool, true, false, Option, none, some, List, [], ◌∷◌, ◌++◌, ◌==◌,
  list_eq, nat_eq, bytes, ◌||◌, not, any, if◌then◌else◌,
}
use scim_go.Runtime.{Runtime, equal_fold}
use scim_go.Errors.{Result, ok, err, err_invalid_path}
use scim_go.Core.Value.{
  Value, Items, Object, null, text, boolean, number, int64, float64, instant, array, object, nil,
  cons, elements, items, entries, fields,
}
use scim_go.Core.Attribute.{Attribute, traits}
use scim_go.Core.Object.{get, set}
use scim_go.Value.{as_object, primary, is_true}
use scim_go.Value.Identity.{Formats}
use scim_go.Value.Sets.{unique}
use scim_go.Patch.Operation.{Kind, op_add, kind_eq}
pub mod Primary

-- shapedList
unfoldable pub shaped_list : Value → List Value
shaped_list null = []
shaped_list (array vs) = elements vs
shaped_list v = v ∷ []

-- appended
unfoldable pub appended : Value → Value → Kind → Value
appended (array vs) incoming op_add = array (items (elements vs ++ shaped_list incoming))
appended before incoming kind = incoming

-- written == true, in promotes
unfoldable pub is_true_value : Value → Bool
is_true_value v = is_true v

module _ ⦃R : Runtime⦄ where
  -- shaped
  unfoldable pub shaped : ⦃F : Formats⦄ → Attribute → Value → Value
  shaped a incoming =
      if (traits a).multi_valued then array (items (unique a (shaped_list incoming))) else incoming

  -- set
  unfoldable pub set_value : Object → Text → Value → Kind → Object
  set_value o name incoming kind = set o name (appended (get o name) incoming kind)

  child_of : Object → Text → Value → Result (Object × Object)
  child_of o name null = ok (set o name (object (fields [])), [])
  child_of o name (object fs) = ok (o, entries fs)
  child_of o name _ = err err_invalid_path

  -- child: the object that may be new, and the one under the name
  unfoldable pub child : Object → Text → Result (Object × Object)
  unfolding child_of
  child o name = child_of o name (get o name)

  -- setPrimary
  unfoldable pub set_primary : Value → Bool → Value
  set_primary (object fs) flag = object (fields (set (entries fs) (bytes "primary") (boolean flag)))
  set_primary v flag = v

  -- demote, from the element at a position on
  unfoldable pub demote_from : ℕ → (ℕ → Bool) → List Value → List Value
  demote_from i written [] = []
  demote_from i written (v ∷ vs) =
      let rest = demote_from (i + 1) written vs in
      if written i || not (primary v) then v ∷ rest else set_primary v false ∷ rest

  -- demote
  unfoldable pub demote : List Value → (ℕ → Bool) → List Value
  demote vs written = demote_from 0 written vs

  -- list, _ := written.([]any)
  list_or_nil : Value → List Value
  list_or_nil (array vs) = elements vs
  list_or_nil _ = []

  -- promotes
  unfoldable pub promotes : Text → Value → Bool
  unfolding is_true_value list_or_nil
  promotes key written =
      if equal_fold key (bytes "primary")
      then is_true_value written
      else primary written || any primary (list_or_nil written)
