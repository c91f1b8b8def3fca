-- ===== src/Patch/Merger.antt =====
-- pkg/patch/merger.go: an object merged into the one that an attribute holds.
use scim_go.Prelude.{Text, Option, some, [], ◌∷◌, list_eq, nat_eq, if◌then◌else◌, get_or}
use scim_go.Prelude.Dict.{Dict, lookup, insert}
use scim_go.Runtime.{Runtime}
use scim_go.Errors.{Result, ok, err, ◌>>◌}
use scim_go.Core.Value.{Value, Object, null, array, elements, items}
use scim_go.Core.Attribute.{Attribute, traits}
use scim_go.Value.Identity.{Formats}
use scim_go.Patch.Operation.{Kind, op_add, kind_eq, sub_or_permissive}
use scim_go.Patch.Keys.{add_key, new_keys, resolve_key}
use scim_go.Patch.Writing.{shaped, shaped_list, appended}
use scim_go.Patch.Gates.{new_parent_gate, check_parent, gate_immutable_write}
use scim_go.Patch.Index.{new_index, fresh}

-- merger, without `holder`, which the functions take and return
pub record Merger : Type 0 where
  pub parent : Attribute
  pub kind : Kind
  pub parent_gate : Option Attribute

-- newMerger
unfoldable pub new_merger : Object → Attribute → Kind → Merger
new_merger holder parent kind = record {
  parent = parent;
  kind = kind;
  parent_gate = new_parent_gate (some parent) holder;
}

-- m.holder[key]
unfoldable pub held_at : Object → Text → Value
held_at holder key = get_or (lookup key holder) null

module _ ⦃F : Formats⦄ ⦃R : Runtime⦄ where
  -- the value that merger.field writes: an add to a list leaves out what the list has
  unfoldable pub fresh_in : Kind → Attribute → Value → Value → Value
  fresh_in op_add sub (array existing) v =
      if (traits sub).multi_valued
      then array (items (fresh (new_index sub (elements existing)) (shaped_list v)))
      else v
  fresh_in kind sub before v = v

  -- merger.field, once the sub-attribute is found
  unfoldable pub write_field : Merger → Attribute → Object → Text → Value → Result Object
  write_field m sub holder key incoming =
      let before = held_at holder key in
      let final = appended before (fresh_in m.kind sub before (shaped sub incoming)) m.kind in
      gate_immutable_write sub before final
      >> (check_parent m.parent_gate sub before final >> ok (insert key final holder))

  -- merger.field
  unfoldable pub merge_field : Merger → Object → Text → Text → Value → Result Object
  merge_field m holder key name incoming =
      write_field m (sub_or_permissive m.parent name) holder key incoming

  -- the loop of merger.merge
  unfoldable pub merge_loop : Merger → Dict Text Text → Object → Object → Result Object
  merge_loop m folded holder [] = ok holder
  merge_loop m folded holder ((name, incoming) ∷ values) =
      let key = resolve_key holder folded name in
      elim (merge_field m holder key name incoming) [
        | err e ↦ err e
        | ok holder' ↦ merge_loop m (add_key folded key) holder' values
      ]

  -- newMerger and merger.merge
  unfoldable pub merge : Attribute → Kind → Object → Object → Result Object
  merge parent kind holder values =
      merge_loop (new_merger holder parent kind) (new_keys holder) holder values
