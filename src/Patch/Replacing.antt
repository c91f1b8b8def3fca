-- ===== src/Patch/Replacing.antt =====
-- pkg/patch/replacer.go and remover.go: the values that a filter selects, replaced or removed, and
-- the removal of attributes.
use scim_go.Prelude.{
  ℕ, ◌*◌, Text, Bool, true, false, Option, none, some, List, [], ◌∷◌, ◌==◌, list_eq, nat_eq, not,
  ◌&&◌, ◌||◌, if◌then◌else◌, length, is_some,
}
use scim_go.Runtime.{Runtime}
use scim_go.Errors.{
  Result, ok, err, ◌>>=◌, ◌>>◌, err_invalid_path, err_invalid_value, err_no_target, error_is,
}
use scim_go.Core.Value.{
  Value, Object, null, text, boolean, number, int64, float64, instant, array, object, items,
}
use scim_go.Core.Attribute.{Attribute}
use scim_go.Core.Coerce.{coerce}
use scim_go.Core.Object.{get, set, remove}
use scim_go.Value.{is_unassigned}
use scim_go.Value.Compare.{equal}
use scim_go.Value.Identity.{Formats}
use scim_go.Patch.Operation.{Kind, op_replace, kind_eq, is_permissive}
use scim_go.Patch.Budget.{charge_bytes}
use scim_go.Patch.Gates.{gate_required, gate_immutable_write, new_parent_gate, check_parent}
use scim_go.Patch.Matcher.{Compiled, inferred, is_simple}
use scim_go.Patch.Place.{
  Place, read_place, write_place, container, with_container, unassign_empty_extension,
}
use scim_go.Patch.Target.{
  PatchState, Target, Holders, target_key, sub_parent, tally, matches, is_object, target_elements,
  holders_to_read,
}
pub mod Selected

-- candidate == nil
unfoldable pub is_null : Value → Bool
is_null null = true
is_null _ = false

-- isObject(elements[0]) of a list that is not empty, and the other tests of selectsValues
unfoldable pub holds_simple_values : List Value → Value → Bool
holds_simple_values [] incoming = false
holds_simple_values (v ∷ vs) incoming = not (is_object v) && not (is_object incoming)

-- replacer.typeOf
unfoldable pub type_of : Target → Value → Attribute
type_of t incoming = if is_permissive t.own then inferred incoming else t.own

module _ ⦃R : Runtime⦄ where
  -- replacer.selectsValues
  unfoldable pub selects_values : Target → PatchState → Value → Bool
  selects_values t st incoming =
      if not (is_some t.selector) || not (t.path.sub_attribute == [])
      then false
      else if not (is_permissive t.parent)
      then is_simple t.parent
      else holds_simple_values (target_elements t st.root) incoming

  -- replacer.keeps
  unfoldable pub keeps : Attribute → List Value → List Bool → Value → Bool
  keeps a (v ∷ vs) (hit ∷ hits) incoming =
      (not hit && equal a v incoming) || keeps a vs hits incoming
  keeps a _ _ incoming = false

  -- the loop of replacer.substitute
  unfoldable pub substitute_loop : List Value → List Bool → Value → Bool → List Value
  substitute_loop (v ∷ vs) (false ∷ hits) incoming placed =
      v ∷ substitute_loop vs hits incoming placed
  substitute_loop (v ∷ vs) (true ∷ hits) incoming true = substitute_loop vs hits incoming true
  substitute_loop (v ∷ vs) (true ∷ hits) incoming false =
      incoming ∷ substitute_loop vs hits incoming true
  substitute_loop _ _ incoming placed = []

  -- replacer.substitute
  unfoldable pub substitute : Attribute → List Value → List Bool → Value → List Value
  substitute a vs hits incoming =
      substitute_loop vs hits incoming (is_null incoming || keeps a vs hits incoming)

  -- replacer.rewrite
  unfoldable pub rewrite : Target → List Value → List Bool → Value → PatchState → Result PatchState
  rewrite t vs hits incoming st =
      let after = substitute t.own vs hits incoming in
      gate_immutable_write t.own (array (items vs)) (array (items after))
      >> (let c = set (container st.root t.extension) t.path.name (array (items after)) in
          ok (record st { root = with_container st.root t.extension c; indexes = [] }))

  -- remover.drop
  unfoldable pub drop_matched : Target → Compiled → PatchState → Result PatchState
  drop_matched t c st =
      let vs = target_elements t st.root in
      matches t c st vs >>= λ found.
      if tally found.0 == 0
      then err err_no_target
      else (gate_required t.own (tally found.0 == length vs) >> rewrite t vs found.0 null found.1)

  -- remover.gateHolderRemoval
  unfoldable pub gate_holder_removal : Target → Object → Result (Unit {0})
  gate_holder_removal t holder =
      let held = get holder (target_key t) in
      gate_required t.own (not (is_unassigned held))
      >> (gate_immutable_write t.own held null
          >> check_parent (new_parent_gate (sub_parent t) holder) t.own held null)

  -- the loops of remover.values
  unfoldable pub gate_removals : Target → Object → List Place → Result (Unit {0})
  gate_removals t o [] = ok tt
  gate_removals t o (p ∷ places) =
      gate_holder_removal t (read_place o p) >> gate_removals t o places

  unfoldable pub remove_at : Target → Object → List Place → Object
  remove_at t o [] = o
  remove_at t o (p ∷ places) =
      remove_at t (write_place o p (remove (read_place o p) (target_key t))) places

  -- the end of remover.values, once the holders are found
  unfoldable pub remove_held : Target → Holders × PatchState → Result PatchState
  remove_held t (hs, st) =
      let o = container st.root t.extension in
      gate_removals t o hs.places
      >> (let root = with_container st.root t.extension (remove_at t o hs.places) in
          ok (record st { root = unassign_empty_extension root t.extension }))

  -- remover.values
  unfoldable pub remove_values : Target → PatchState → Result PatchState
  remove_values t st = elim t.selector [
    | none ↦ holders_to_read t st >>= remove_held t
    | some c ↦
        if t.path.sub_attribute == []
        then drop_matched t c st
        else (holders_to_read t st >>= remove_held t)
  ]

  -- the end of remover.run: a filter that matches nothing removes nothing, and its cost stays spent.
  unfoldable pub removed_or_same : Target → PatchState → Result PatchState → Result PatchState
  removed_or_same t st (ok st') = ok st'
  removed_or_same t st (err e) = elim t.selector [
    | none ↦ err e
    | some c ↦
        if error_is e err_no_target
        then (matches t c st (target_elements t st.root) >>= λ found. ok found.1)
        else err e
  ]

  -- remover.run
  unfoldable pub run_remover : Target → PatchState → Result PatchState
  run_remover t st =
      let cleared = record st { indexes = [] } in
      removed_or_same t cleared (remove_values t cleared)

  module _ ⦃F : Formats⦄ where
    -- target.chargeOutput. What decode reads can always be encoded again.
    unfoldable pub charge_output : PatchState → ℕ → Value → Result PatchState
    charge_output st count incoming =
        charge_bytes st.budget (count * length (F.marshal incoming)) >>= λ b.
        ok (record st { budget = b })

    -- replacer.replace
    unfoldable pub replace_values :
        Target → Compiled → Kind → Value → PatchState → Result PatchState
    replace_values t c kind incoming st =
        let vs = target_elements t st.root in
        if not (kind == op_replace)
        then err err_invalid_path
        else if not (is_some (coerce (type_of t incoming) incoming)) || is_null incoming
        then err err_invalid_value
        else (matches t c st vs >>= λ found.
            if tally found.0 == 0
            then err err_no_target
            else (charge_output found.1 1 incoming >>= rewrite t vs found.0 incoming))
