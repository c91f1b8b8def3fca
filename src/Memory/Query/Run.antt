-- ===== src/Memory/Query/Run.antt =====
-- internal/memory/query.go: run, matching, sorted and sortBy, over the rows of the resource type.
use scim_go.Prelude.{ℕ, Option, none, some, List, [], ◌==◌, list_eq, nat_eq, length, if◌then◌else◌}
use scim_go.Runtime.{Runtime}
use scim_go.Decode.{Json}
use scim_go.Errors.{Result, ok, err, ◌>>=◌, err_invalid_value}
use scim_go.Core.Value.{Value, Object, object, fields}
use scim_go.Core.Schemas.{Schemas}
use scim_go.Fields.{Fields}
use scim_go.Store.Reference.{Reference}
use scim_go.Store.Record.{Record}
use scim_go.Filter.Strings.{Strings}
use scim_go.Protocol.{SearchRequest}
use scim_go.Protocol.Attribute.{NamedAttribute, root}
use scim_go.Protocol.Visitor.{filter}
use scim_go.Protocol.Validation.{sort_attribute}
use scim_go.Memory.State.{Memory}
use scim_go.Memory.Evaluator.{new_evaluator}
use scim_go.Memory.Query.{Row, matching, sorted, sort_key, page}

module _ ⦃R : Runtime⦄ where
  -- query.sortBy and query.sorted
  unfoldable pub sort_rows :
      SearchRequest → NamedAttribute → Option (Object → Value) → List Row → Result (List Row)
  unfolding sorted
  sort_rows request a none rows = err err_invalid_value
  sort_rows request a (some key) rows = ok (sorted request a.definition key rows)

  unfoldable pub sorted_rows : Fields → Schemas → SearchRequest → List Row → Result (List Row)
  unfolding sort_attribute sort_rows sort_key root
  sorted_rows fs schemas request rows =
      let found = sort_attribute schemas request >>= λ a.
      sort_rows request a (sort_key fs (root a) a.definition) rows in
      if request.sort_by == [] then ok rows else found

module _ ⦃R : Runtime⦄ ⦃S : Strings⦄ where
  -- query.matching
  unfoldable pub filtered_rows : Fields → Schemas → SearchRequest → List Row → Result (List Row)
  unfolding filter new_evaluator matching
  filtered_rows fs schemas request rows =
      let found = filter schemas request.filter (new_evaluator fs schemas) >>= λ p.
      ok (matching (λ o. p (object (fields o))) rows) in
      if request.filter == [] then ok rows else found

  unfoldable pub matching_rows : Fields → Schemas → SearchRequest → List Row → Result (List Row)
  unfolding filtered_rows sorted_rows
  matching_rows fs schemas request rows =
      filtered_rows fs schemas request rows >>= sorted_rows fs schemas request

module _ ⦃R : Runtime⦄ ⦃S : Strings⦄ ⦃J : Json⦄ where
  -- query.run: the page, and the number of the rows that match
  unfoldable pub run :
      Memory
      → Fields
      → Schemas
      → SearchRequest
      → List Reference
      → List Row
      → Result (List Record × ℕ)
  unfolding matching_rows page
  run m fs schemas request references rows = matching_rows fs schemas request rows >>= λ found.
      ok (page m request references found, length found)
