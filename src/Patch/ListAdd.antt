-- ===== src/Patch/ListAdd.antt =====
-- pkg/patch/list_add.go and carryforward.go: adding to a multi-valued attribute, and what elements
-- that replace others keep of them.
pub mod Cache
use scim_go.Prelude.{
  ℕ, ◌+◌, Bool, false, none, some, List, [], ◌∷◌, ◌==◌, list_eq, nat_eq, not, ◌&&◌, ◌||◌,
  if◌then◌else◌, take, drop, delete_func, is_some, map, contains,
}
use scim_go.Prelude.Dict.{insert}
use scim_go.Runtime.{Runtime}
use scim_go.Core.Kinds.{immutable, read_only, mutability_eq}
use scim_go.Core.Value.{Value, Object, array, object, elements, items, entries, fields}
use scim_go.Core.Attribute.{Attribute, traits, sub_attributes}
use scim_go.Core.Object.{get, set, has}
use scim_go.Value.Identity.{Formats}
use scim_go.Value.Sets.{ValueSet, new_set, find_object, keyed_by_identity}
use scim_go.Patch.Operation.{Kind, op_add, op_replace, kind_eq}
use scim_go.Patch.Index.{
  Index, IndexCache, new_index, fresh, add_stored, lookup_index, cache_key, primaries_from,
}
use scim_go.Patch.Place.{container, with_container}
use scim_go.Patch.Target.{PatchState, Target, target_key, target_elements}
use scim_go.Patch.Writing.{shaped_list, set_primary, demote, promotes}

-- listAdd.isAdd
unfoldable pub is_add : Target → Kind → Bool
is_add t kind =
    kind == op_add
    && not (is_some t.selector)
    && not (t.path.name == [])
    && t.path.sub_attribute == []
    && (traits t.own).multi_valued

-- the test of carryForward: a sub-attribute that a client may not change
unfoldable pub is_kept : Attribute → Bool
is_kept sub = (traits sub).mutability == immutable || (traits sub).mutability == read_only

module _ ⦃R : Runtime⦄ where
  -- the elements written back in place
  unfoldable pub put_elements : Target → PatchState → List Value → PatchState
  put_elements t st [] = st
  put_elements t st (v ∷ vs) =
      let c = set (container st.root t.extension) t.path.name (array (items (v ∷ vs))) in
      record st { root = with_container st.root t.extension c }

  -- the loop of fillOmitted
  unfoldable pub fill_subs : Object → List Attribute → Object → Object
  fill_subs existing [] member = member
  fill_subs existing (sub ∷ subs) member =
      let name = (traits sub).name in
      fill_subs existing subs (
        if not (has member name) && has existing name
        then set member name (get existing name)
        else member)

  -- setPrimary(held, false) on the elements at the positions, from one position on
  unfoldable pub demote_at : ℕ → List ℕ → List Value → List Value
  demote_at i positions [] = []
  demote_at i positions (v ∷ vs) =
      let rest = demote_at (i + 1) positions vs in
      if contains i positions then set_primary v false ∷ rest else v ∷ rest

  module _ ⦃F : Formats⦄ where
    -- fillOmitted
    unfoldable pub fill_omitted : List Attribute → ValueSet → Value → Value
    fill_omitted subs stored (object fs) = elim (find_object stored (entries fs)) [
      | none ↦ object fs
      | some existing ↦ object (fields (fill_subs existing subs (entries fs)))
    ]
    fill_omitted subs stored v = v

    filled_elements : List Attribute → Attribute → List Value → List Value → List Value
    filled_elements [] a stored vs = vs
    filled_elements (sub ∷ subs) a stored vs = map (fill_omitted (sub ∷ subs) (new_set a stored)) vs

    -- carryForward
    unfoldable pub carry_forward : Attribute → Kind → List Value → Value → Value
    unfolding filled_elements
    carry_forward a op_replace stored (array vs) =
        let subs = delete_func (λ sub. not (is_kept sub)) (sub_attributes a) in
        array (items (filled_elements subs a stored (elements vs)))
    carry_forward a kind stored candidate = candidate

    -- listAdd.index
    unfoldable pub index_of : Target → IndexCache → List Value → IndexCache × Index
    index_of t c vs = lookup_index c t.extension t.path.name t.own vs

    -- an index that the cache holds by a pointer, once it is another
    unfoldable pub put_index : Target → IndexCache → Index → IndexCache
    put_index t c ix = insert (cache_key t.extension t.path.name) ix c

    -- listAdd.fresh
    unfoldable pub fresh_incoming : Target → Kind → Value → PatchState → Value × PatchState
    fresh_incoming t kind candidate st =
        let found = index_of t st.indexes (target_elements t st.root) in
        if is_add t kind
        then (
          array (items (fresh found.1 (shaped_list candidate))),
          record st { indexes = found.0 },
        )
        else (candidate, st)

    -- listAdd.dedupedAdd
    unfoldable pub deduped_add : Target → Kind → Value → Value → Value
    deduped_add t kind (array existing) v =
        if not (kind == op_add) || not (traits t.own).multi_valued || is_add t kind
        then v
        else array (items (fresh (new_index t.own (elements existing)) (shaped_list v)))
    deduped_add t kind held v = v

    -- listAdd.demotePrimaries, where `before` counts the elements before the write
    unfoldable pub demote_primaries : Target → ℕ → PatchState → PatchState
    demote_primaries t before st =
        let vs = target_elements t st.root in
        let found = index_of t st.indexes (take before vs) in
        let after = demote_at 0 found.1.primaries vs in
        let ix = found.1 in
        let st' = put_elements t st after in
        record st' {
          indexes =
              put_index t found.0
                (record ix { primaries = primaries_from before (drop before after) });
        }

    -- listAdd.demoteIfPromoted
    unfoldable pub demote_if_promoted :
        Target → Kind → ℕ → (ℕ → Bool) → Value → PatchState → PatchState
    demote_if_promoted t kind before written incoming st =
        if not (promotes (target_key t) incoming)
        then st
        else if is_add t kind
        then demote_primaries t before st
        else put_elements t st (demote (target_elements t st.root) written)

    -- listAdd.record
    unfoldable pub record_added : Target → Kind → ℕ → Value → PatchState → PatchState
    record_added t kind before added st =
        let vs = target_elements t st.root in
        let found = index_of t st.indexes (take before vs) in
        if not (is_add t kind) || (promotes (target_key t) added && not (keyed_by_identity t.own))
        then record st { indexes = [] }
        else record st { indexes = put_index t found.0 (add_stored found.1 (drop before vs)) }
