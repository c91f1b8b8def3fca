-- ===== src/Patch/Target.antt =====
-- pkg/patch/target.go and filter_state.go: what a path selects in a resource.
use scim_go.Prelude.{
  ℕ, ◌+◌, ◌*◌, Text, Bool, true, false, Option, none, some, List, [], ◌∷◌, ◌==◌, list_eq, nat_eq,
  not, ◌&&◌, ◌||◌, if◌then◌else◌, length, map, is_some,
}
use scim_go.Runtime.{Runtime}
use scim_go.Errors.{Result, ok, err, ◌>>=◌, err_no_target, err_invalid_path}
use scim_go.Core.Kinds.{type_complex, type_eq}
use scim_go.Core.Value.{Value, Object, array, object, fields}
use scim_go.Core.Attribute.{Attribute, traits}
use scim_go.Core.Object
use scim_go.Core.Object.{get}
use scim_go.Filter.Path.{AttrPath}
use scim_go.Patch.Operation.{kind_eq}
use scim_go.Patch.Budget.{Budget, charge}
use scim_go.Patch.Index.{IndexCache}
use scim_go.Patch.Matcher.{Compiled}
use scim_go.Patch.Place.{Place, whole, nested, element, list_of, container, made_container}
use scim_go.Patch.Writing.{child}

-- patcher, with the resource: its fields that change
pub record PatchState : Type 0 where
  pub root : Object
  pub budget : Budget
  pub indexes : IndexCache

-- target: the fields that do not change. The filter is that of filterState.
pub record Target : Type 0 where
  pub extension : Text
  pub parent : Attribute
  pub own : Attribute
  pub path : AttrPath
  pub selector : Option Compiled

-- isObject
unfoldable pub is_object : Value → Bool
is_object (object fs) = true
is_object _ = false

-- target.key
unfoldable pub target_key : Target → Text
target_key t =
    if is_some t.selector || not (t.path.sub_attribute == [])
    then t.path.sub_attribute
    else t.path.name

-- target.owner
unfoldable pub owner : Target → Attribute
owner t = if target_key t == [] then t.parent else t.own

-- target.subParent
unfoldable pub sub_parent : Target → Option Attribute
sub_parent t = if t.path.sub_attribute == [] then none else some t.parent

-- tally
unfoldable pub tally : List Bool → ℕ
tally [] = 0
tally (true ∷ hits) = tally hits + 1
tally (false ∷ hits) = tally hits

-- the test in filterState.matches
unfoldable pub selects : Target → Compiled → Value → Bool
selects t c v = (is_object v || not ((traits t.parent).kind == type_complex)) && c.test v

-- filterState.matches
unfoldable pub matches :
    Target → Compiled → PatchState → List Value → Result (List Bool × PatchState)
matches t c st vs = charge st.budget (length vs * c.clauses) >>= λ b.
    ok (map (selects t c) vs, record st { budget = b })

-- the loop of members, from the element at a position on; every element where nothing was matched
unfoldable pub member_places : Text → ℕ → List Value → Option (List Bool) → List Place
member_places name i [] hits = []
member_places name i (v ∷ vs) none =
    let rest = member_places name (i + 1) vs none in
    if is_object v then element name i ∷ rest else rest
member_places name i (v ∷ vs) (some []) = []
member_places name i (v ∷ vs) (some (hit ∷ hits)) =
    let rest = member_places name (i + 1) vs (some hits) in
    if is_object v && hit then element name i ∷ rest else rest

-- the end of members
unfoldable pub found_members : List Place → Result (List Place)
found_members [] = err err_no_target
found_members (p ∷ places) = ok (p ∷ places)

-- members
unfoldable pub members : Text → List Value → Option (List Bool) → Result (List Place)
members name vs hits = found_members (member_places name 0 vs hits)

-- the holders of a target, with the elements that its filter matched
pub record Holders : Type 0 where
  pub places : List Place
  pub matched : List Bool

module _ ⦃R : Runtime⦄ where
  -- target.elements
  unfoldable pub target_elements : Target → Object → List Value
  target_elements t root = list_of (get (container root t.extension) t.path.name)

  -- filterState.holders
  unfoldable pub filtered_holders :
      Target → Compiled → Object → PatchState → Result (Holders × PatchState)
  filtered_holders t c o st =
      let vs = list_of (get o t.path.name) in
      matches t c st vs >>= λ found. members t.path.name vs (some found.0) >>= λ places.
      ok (record { places = places; matched = found.0 }, found.1)

  -- a part of target.holders
  unfoldable pub unmatched : List Place → PatchState → Result (Holders × PatchState)
  unmatched places st = ok (record { places = places; matched = [] }, st)

  -- the cases of target.typedHolders
  unfoldable pub held_places : Text → Value → Result (List Place)
  held_places name (object fs) = ok (nested name ∷ [])
  held_places name (array vs) = members name (list_of (array vs)) none
  held_places name _ = ok []

  -- target.typedHolders
  unfoldable pub typed_holders : Target → Object → Result (List Place)
  typed_holders t o = held_places t.path.name (get o t.path.name)

  -- target.holders(false)
  unfoldable pub holders_to_read : Target → PatchState → Result (Holders × PatchState)
  holders_to_read t st =
      let o = container st.root t.extension in
      elim t.selector [
        | some c ↦ filtered_holders t c o st
        | none ↦
            if t.path.sub_attribute == []
            then unmatched (whole ∷ []) st
            else (typed_holders t o >>= λ places. unmatched places st)
      ]

  -- the state once a container is written back where it was made
  unfoldable pub put_container : Target → PatchState → Object → Object → PatchState
  put_container t st root o = record st {
    root = if t.extension == [] then o else Object.set root t.extension (object (fields o));
  }

  -- a part of target.holders
  unfoldable pub made_nested : Target → Object → Object → PatchState → Result (Holders × PatchState)
  made_nested t root o st =
      if (traits t.parent).multi_valued
      then err err_invalid_path
      else (child o t.path.name >>= λ made.
          unmatched (nested t.path.name ∷ []) (put_container t st root made.0))

  -- target.holders(true)
  unfoldable pub holders_to_write : Target → PatchState → Result (Holders × PatchState)
  holders_to_write t st = made_container st.root t.extension >>= λ made.
      let st' = record st { root = made.0 } in
      elim t.selector [
        | some c ↦ filtered_holders t c made.1 st'
        | none ↦
            if t.path.sub_attribute == []
            then unmatched (whole ∷ []) st'
            else made_nested t made.0 made.1 st'
      ]
