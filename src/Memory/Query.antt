-- ===== src/Memory/Query.antt =====
-- internal/memory: query.go and sort.go. A filter, which the parser makes, comes as the predicate.
use scim_go.Prelude.{
  ℕ, zero, suc, ◌+◌, ◌-◌, min, Text, Bool, true, false, Option, none, some, List, [], ◌∷◌, ◌==◌, Eq,
  list_eq, nat_eq, bytes, if◌then◌else◌, not, map, take, drop, length, Ordering, swap, text_lt,
  delete_func, get_or,
}
use scim_go.Prelude.Dict.{lookup}
use scim_go.Prelude.Sort.{sort}
use scim_go.Runtime.{Runtime}
use scim_go.Decode.{Json}
use scim_go.Core.Value.{Value, Object, null}
use scim_go.Core.Object.{get}
use scim_go.Core.Attribute.{Attribute, traits}
use scim_go.Core.Coerce.{fold}
use scim_go.Core.Schemas.{Schema}
use scim_go.Value.{defaulted, is_unassigned, primary, object_or_nil}
use scim_go.Value.Compare.{compare_values}
use scim_go.Fields.{Fields, Field, lookup_field, is_list, field_elements, field_value, coerce_value}
use scim_go.Store.Reference.{Reference}
use scim_go.Store.Record.{Record}
use scim_go.Protocol.{SearchRequest, offset, descending, at_least_zero}
use scim_go.Memory.State.{Entry, Entries, Memory}
use scim_go.Memory.Operations.{record_of}
pub mod Paging
pub mod Walk
pub mod Run
pub mod Order

-- row
pub record Row : Type 0 where
  pub id : Text
  pub entry : Entry
  pub object : Object

-- idsOf
unfoldable pub ids_loop : Entries → Schema → List Text
ids_loop [] schema = []
ids_loop ((id, e) ∷ es) schema =
    let rest = ids_loop es schema in if e.schema.address == schema.address then id ∷ rest else rest

unfoldable pub ids_of : Entries → Schema → List Text
unfolding ids_loop
ids_of es schema = sort text_lt (ids_loop es schema)

module _ ⦃R : Runtime⦄ where
  -- primaryOrFirst
  unfoldable pub primary_loop : List Value → Option Value
  primary_loop [] = none
  primary_loop (v ∷ vs) = let rest = primary_loop vs in if primary v then some v else rest

  unfoldable pub primary_or_first : List Value → Option Value
  unfolding primary_loop
  primary_or_first [] = none
  primary_or_first (v ∷ vs) = some (get_or (primary_loop (v ∷ vs)) v)

  -- compareAscending, where Compare reports 0 for values that are not comparable
  unfoldable pub compare_present : Option Ordering → Ordering
  compare_present none = Ordering.eq
  compare_present (some o) = o

  unfoldable pub compare_missing : Bool → Bool → Ordering → Ordering
  compare_missing true true o = Ordering.eq
  compare_missing true false o = Ordering.gt
  compare_missing false true o = Ordering.lt
  compare_missing false false o = o

  unfoldable pub compare_ascending : Attribute → Value → Value → Ordering
  compare_ascending att a b =
      let x = defaulted att a in
      let y = defaulted att b in
      compare_missing (is_unassigned x) (is_unassigned y)
        (compare_present (compare_values (fold att x) (fold att y)))

  -- compareSortKeys
  unfoldable pub compare_sort_keys : Attribute → Value → Value → Bool → Ordering
  compare_sort_keys att a b falling =
      let result = compare_ascending att a b in if falling then swap result else result

  -- query.sortKey
  unfoldable pub first_key : Attribute → Option Value → Value
  first_key att none = null
  first_key att (some element) = coerce_value att (get (object_or_nil element) (traits att).name)

  unfoldable pub single_key : Option Field → Option (Object → Value)
  single_key none = none
  single_key (some f) = some (field_value f)

  unfoldable pub sort_key : Fields → Attribute → Attribute → Option (Object → Value)
  unfolding primary_or_first single_key
  sort_key fs parent att = elim (lookup_field fs parent) [
    | none ↦ single_key (lookup_field fs att)
    | some list ↦
        if is_list list
        then some (λ d. first_key att (primary_or_first (field_elements list d)))
        else single_key (lookup_field fs att)
  ]

  is_less : Ordering → Bool
  is_less Ordering.lt = true
  is_less _ = false

  -- query.sorted, once the key of sortBy is found
  unfoldable pub sorted : SearchRequest → Attribute → (Object → Value) → List Row → List Row
  unfolding is_less
  sorted request att key rows =
      sort
        (λ (a b : Row).
          is_less (compare_sort_keys att (key a.object) (key b.object) (descending request)))
        rows

-- query.matching, before it sorts
unfoldable pub matching : (Object → Bool) → List Row → List Row
matching p rows = delete_func (λ (r : Row). not (p r.object)) rows

module _ ⦃R : Runtime⦄ ⦃J : Json⦄ where
  -- query.page: rows[start:end] of what is left after `start`
  unfoldable pub page : Memory → SearchRequest → List Reference → List Row → List Record
  page m request references rows =
      let start = min (offset request) (length rows) in
      let size = min (at_least_zero request.count) (length rows - start) in
      map (λ (r : Row). record_of m r.id r.entry references) (take size (drop start rows))
