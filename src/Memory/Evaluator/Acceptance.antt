-- ===== src/Memory/Evaluator/Acceptance.antt =====
-- internal/memory/evaluator.go with pkg/protocol: how the store answers a filter that was accepted.
use scim_go.Prelude.{
  Text, Bool, true, false, Option, none, some, List, [], ◌==◌, list_eq, nat_eq, not, ◌≡◌, refl,
  arith, inl, inr, if◌then◌else◌, ◌⊎◌,
}
use scim_go.Runtime.{Runtime}
use scim_go.Errors.{Error, Result, ok, err, ◌>>=◌, ◌>>◌, err_invalid_filter}
use scim_go.Core.Value.{Value}
use scim_go.Core.Attribute.{Attribute}
use scim_go.Core.Schemas.{Schemas, base}
use scim_go.Fields.{Fields, Field, lookup_field, is_list}
use scim_go.Filter.Strings.{Strings}
use scim_go.Filter.Node.{Node}
use scim_go.Filter.Parse.{ParseFailure, parse}
use scim_go.Protocol.Attribute.{NamedAttribute}
use scim_go.Protocol.Visitor.{accept, visit_parsed, evaluate, filter, visitor}
use scim_go.Protocol.Visitor.Accepted.{FailsWith, OnlyFails, visit-FailsWith}
use scim_go.Protocol.{SearchRequest}
use scim_go.Protocol.Validation.{validate, check_filter, check_sort}
use scim_go.Memory.Query.{Row}
use scim_go.Memory.Query.Run.{filtered_rows}
use scim_go.Memory.Evaluator.{
  Predicate, reader, read_from, field_reader, in_list, evaluator, new_evaluator, without_password,
}

abbrev pub IsInvalidFilter : Error → Type 0
IsInvalidFilter e = e ≡ err_invalid_filter

map_fails :
    {A B : Type 0} (P : Error → Type 0) (r : Result A) (f : A → B)
    → FailsWith P r
    → FailsWith P (r >>= λ x. ok (f x))
map_fails P (err e) f h = h
map_fails P (ok a) f h = tt

if_fails :
    {A : Type 0} (P : Error → Type 0) (b : Bool) (x y : Result A)
    → FailsWith P x
    → FailsWith P y
    → FailsWith P (if b then x else y)
if_fails P true x y h k = h
if_fails P false x y h k = k

if_accepted :
    {A : Type 0} (P : Error → Type 0) (b : Bool) (r : Result (Unit {0})) (x y : Result A)
    → (if b then ok tt else r) ≡ ok tt
    → FailsWith P x
    → (r ≡ ok tt → FailsWith P y)
    → FailsWith P (if b then x else y)
if_accepted P true r x y h k l = k
if_accepted P false r x y h k l = l h

first_passed : (r s : Result (Unit {0})) → (r >> s) ≡ ok tt → r ≡ ok tt
first_passed (err e) s h = absurd (ground (arith, h))
first_passed (ok u) s h = refl

module _ ⦃R : Runtime⦄ where
  field_reader_fails : (f : Option Field) → FailsWith IsInvalidFilter (field_reader f)
  unfolding field_reader
  field_reader_fails none = refl
  field_reader_fails (some f) = tt

  read_from_fails :
      (fs : Fields) (a : Attribute) (p : Option Attribute)
      → FailsWith IsInvalidFilter (read_from fs a p)
  unfolding read_from
  read_from_fails fs a none = field_reader_fails (lookup_field fs a)
  read_from_fails fs a (some p) = tt

  reader_fails :
      {B : Type 0} (fs : Fields) (a : NamedAttribute) (f : (Value → Value) → B)
      → FailsWith IsInvalidFilter (reader fs a >>= λ read. ok (f read))
  unfolding reader
  reader_fails fs a f =
      map_fails IsInvalidFilter (reader fs a) f (read_from_fails fs a.definition a.parent)

  in_list_fails :
      (f : Option Field) (r : Result Predicate)
      → FailsWith IsInvalidFilter r
      → FailsWith IsInvalidFilter (in_list f r)
  unfolding in_list
  in_list_fails none r h = refl
  in_list_fails (some f) r h =
      if_fails IsInvalidFilter (is_list f) _ _ (map_fails IsInvalidFilter r _ h) refl

  evaluator-OnlyFails : (fs : Fields) → OnlyFails IsInvalidFilter (evaluator fs)
  unfolding evaluator
  evaluator-OnlyFails fs = record {
    compare = λ a op v. reader_fails fs a _;
    present = λ a. reader_fails fs a _;
    both = λ x y. tt;
    either = λ x y. tt;
    negate = λ x. tt;
    value_path = λ a r h. in_list_fails (lookup_field fs a.definition) r h;
  }

module _ ⦃R : Runtime⦄ ⦃S : Strings⦄ where
  visited_fails :
      (fs : Fields) (schemas : Schemas) (in_uri : Bool) (r : ParseFailure ⊎ Node)
      → visit_parsed (visitor schemas accept in_uri) r ≡ ok tt
      → FailsWith IsInvalidFilter
          (visit_parsed (visitor schemas (new_evaluator fs schemas) false) r)
  unfolding visit_parsed new_evaluator
  visited_fails fs schemas in_uri (inl failure) h = refl
  visited_fails fs schemas in_uri (inr n) h =
      let own = without_password fs (base schemas) in
      visit-FailsWith schemas (evaluator own) in_uri IsInvalidFilter (evaluator-OnlyFails own) none
        n h

  parsed_fails :
      (fs : Fields) (schemas : Schemas) (in_uri : Bool) (text : Text)
      → evaluate (visitor schemas accept in_uri) text ≡ ok tt
      → FailsWith IsInvalidFilter (filter schemas text (new_evaluator fs schemas))
  unfolding filter
  parsed_fails fs schemas in_uri text h = visited_fails fs schemas in_uri (parse text) h

  -- When Validate accepts a search request, the store filters its rows, or fails because the filter
  -- is invalid, and in no other way.
  pub filtered_rows-validate :
      (fs : Fields) (schemas : Schemas) (request : SearchRequest) (rows : List Row)
      → validate schemas request ≡ ok tt
      → FailsWith IsInvalidFilter (filtered_rows fs schemas request rows)
  unfolding filtered_rows validate check_filter
  filtered_rows-validate fs schemas request rows h =
      if_accepted IsInvalidFilter (request.filter == []) _ (ok rows) _
        (first_passed (check_filter schemas request) (check_sort schemas request) h) tt
        (λ e.
          map_fails IsInvalidFilter (filter schemas request.filter (new_evaluator fs schemas)) _
            (parsed_fails fs schemas (not request.in_body) request.filter e))
