-- ===== src/Patch/Write.antt =====
-- pkg/patch/target.go: an add or a replace at a path.
use scim_go.Prelude.{
  ℕ, zero, suc, Bool, true, false, none, some, List, [], ◌∷◌, ◌==◌, list_eq, nat_eq, not, ◌&&◌,
  if◌then◌else◌, length, leb, is_some,
}
use scim_go.Runtime.{Runtime}
use scim_go.Errors.{Result, ok, err, ◌>>=◌, ◌>>◌, err_invalid_value}
use scim_go.Core.Kinds.{type_complex, type_eq, read_only, mutability_eq}
use scim_go.Core.Value.{Value, Items, Fields, Object, array, object, nil, cons, end, field, fields}
use scim_go.Core.Attribute.{Attribute, traits}
use scim_go.Core.Object.{get, set}
use scim_go.Value.{clone, object_or_nil}
use scim_go.Value.Identity.{Formats}
use scim_go.Patch.Operation.{Kind, op_add, kind_eq, sub_or_permissive}
use scim_go.Patch.Gates.{gate_immutable_write, new_parent_gate, check_parent}
use scim_go.Patch.Merger.{merge}
use scim_go.Patch.Place.{
  Place, read_place, write_place, container, with_container, unassign_empty_extension,
}
use scim_go.Patch.Target.{
  PatchState, Target, Holders, target_key, owner, sub_parent, is_object, target_elements,
  holders_to_write,
}
use scim_go.Patch.ListAdd.{
  fresh_incoming, deduped_add, carry_forward, demote_if_promoted, record_added,
}
use scim_go.Patch.Replacing.{selects_values, replace_values, charge_output}
use scim_go.Patch.Writing.{shaped, appended, set_value, child}

-- f.matched[i]
unfoldable pub hit_at : List Bool → ℕ → Bool
hit_at [] i = false
hit_at (hit ∷ hits) zero = hit
hit_at (hit ∷ hits) (suc i) = hit_at hits i

-- filterState.written, where `before` counts the elements
unfoldable pub written_at : Target → List Bool → ℕ → Kind → ℕ → Bool
written_at t hits before kind i =
    if is_some t.selector
    then hit_at hits i
    else if kind == op_add && t.path.sub_attribute == []
    then leb before i
    else true

module _ ⦃R : Runtime⦄ where
  -- stripReadOnly, on a value, a list and the names of an object
  unfoldable mutual
    pub strip_read_only : Attribute → Value → Value
    strip_read_only a (array vs) = array (strip_items a vs)
    strip_read_only a (object fs) = object (strip_fields a fs)
    strip_read_only a v = v

    pub strip_items : Attribute → Items → Items
    strip_items a nil = nil
    strip_items a (cons v vs) = cons (strip_read_only a v) (strip_items a vs)

    pub strip_fields : Attribute → Fields → Fields
    strip_fields a end = end
    strip_fields a (field k v fs) =
        let rest = strip_fields a fs in
        if (traits (sub_or_permissive a k)).mutability == read_only then rest else field k v rest

  -- target.overwritable
  unfoldable pub overwritable : Target → Object → Kind → Value → Result (Unit {0})
  overwritable t holder kind candidate =
      let before = get holder (target_key t) in
      let final = appended before candidate kind in
      gate_immutable_write t.own before final
      >> check_parent (new_parent_gate (sub_parent t) holder) t.own before final

  -- an object of the target's container, once it is another
  unfoldable pub put_place : Target → PatchState → Place → Object → PatchState
  put_place t st p o =
      let c = container st.root t.extension in
      record st { root = with_container st.root t.extension (write_place c p o) }

  module _ ⦃F : Formats⦄ where
    -- target.put for a single complex attribute
    unfoldable pub put_nested : Target → Object → Kind → Object → Result Object
    put_nested t holder kind values = child holder (target_key t) >>= λ made.
        merge t.own kind made.1 values >>= λ o. ok (set made.0 (target_key t) (object (fields o)))

    -- target.put, where the value is no object to merge
    unfoldable pub put_value : Target → Object → Kind → List Value → Value → Result Object
    put_value t holder kind stored incoming =
        let held = get holder (target_key t) in
        let v = deduped_add t kind held (shaped t.own incoming) in
        overwritable t holder kind v
        >> ok (set_value holder (target_key t) (carry_forward t.own kind stored v) kind)

    -- the cases of target.put
    unfoldable pub put_in : Target → Object → Kind → List Value → Value → Result Object
    put_in t holder kind stored incoming =
        if target_key t == []
        then merge t.parent kind holder (object_or_nil incoming)
        else if is_object incoming
            && (traits t.own).kind == type_complex
            && not (traits t.own).multi_valued
        then put_nested t holder kind (object_or_nil incoming)
        else put_value t holder kind stored incoming

    -- target.put
    unfoldable pub put : Target → Kind → Value → PatchState → Place → Result PatchState
    put t kind incoming st p =
        put_in t (read_place (container st.root t.extension) p) kind (target_elements t st.root)
          incoming
        >>= λ o. ok (put_place t st p o)

    -- the loop of target.write
    unfoldable pub put_all : Target → Kind → Value → PatchState → List Place → Result PatchState
    put_all t kind incoming st [] = ok st
    put_all t kind incoming st (p ∷ places) = elim (put t kind (clone incoming) st p) [
      | err e ↦ err e
      | ok st' ↦ put_all t kind incoming st' places
    ]

    -- target.write, once the holders are found and paid for
    unfoldable pub write_held : Target → Kind → Value → Holders → PatchState → Result PatchState
    write_held t kind incoming hs st =
        let fresh = fresh_incoming t kind incoming st in
        let before = length (target_elements t fresh.1.root) in
        put_all t kind fresh.0 fresh.1 hs.places >>= λ st'.
        let demoted =
          demote_if_promoted t kind before (written_at t hs.matched before kind) fresh.0 st' in
        let recorded = record_added t kind before fresh.0 demoted in
        ok (record recorded { root = unassign_empty_extension recorded.root t.extension })

    -- target.write, where the path selects no values to replace
    unfoldable pub write_holders : Target → Kind → Value → PatchState → Result PatchState
    write_holders t kind incoming st =
        if target_key t == [] && not (is_object incoming)
        then err err_invalid_value
        else (let stripped = strip_read_only (owner t) incoming in
            holders_to_write t st >>= λ found.
            charge_output found.1 (length found.0.places) stripped
            >>= write_held t kind stripped found.0)

    -- target.write
    unfoldable pub write_target : Target → Kind → Value → PatchState → Result PatchState
    write_target t kind incoming st = elim t.selector [
      | none ↦ write_holders t kind incoming st
      | some c ↦
          if selects_values t st incoming
          then replace_values t c kind incoming st
          else write_holders t kind incoming st
    ]
