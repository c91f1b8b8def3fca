-- ===== src/Patch/Matcher.antt =====
-- pkg/patch/matcher.go: a value filter compiled to a test of one element.
use scim_go.Prelude.{
  ℕ, ◌+◌, ℤ, Text, Bool, true, false, Option, none, some, [], ◌∷◌, ◌==◌, list_eq, nat_eq, bytes,
  not, ◌&&◌, ◌||◌, if◌then◌else◌, get_or, is_some,
}
use scim_go.Runtime.{Runtime, equal_fold}
use scim_go.Errors.{
  Result, ok, err, ◌>>=◌, ◌>>◌, err_invalid_filter, err_invalid_path, err_invalid_value,
  err_internal, Error, error_is,
}
use scim_go.Core.Kinds.{
  AttributeType, type_string, type_boolean, type_decimal, type_integer, type_date_time,
  type_reference, type_complex, type_eq,
}
use scim_go.Core.Value.{
  Value, null, text, boolean, number, int64, float64, instant, object, entries,
}
use scim_go.Core.Attribute.{Attribute, traits, new_attribute, sub_attribute}
use scim_go.Core.Object.{get}
use scim_go.Core.Coerce.{coerce, fold}
use scim_go.Value.{hidden, is_unassigned, observed}
use scim_go.Value.Compare.{allowed, match_values}
use scim_go.Filter.Operator.{Operator, op_equals, op_eq}
use scim_go.Filter.Path.{AttrPath}
use scim_go.Filter.Node.{Node}
use scim_go.Filter.Visitor.{Visitor, visit}
use scim_go.Patch.Operation.{is_permissive, permissive}
pub mod Secrets

-- What a conversion of Go's library leaves beside its error: json.Number's Float64 and Int64, and
-- the time of a failed time.Parse.
pub record Leftovers : Type 0 where
  pub float_left : Text → ℕ
  pub int_left : Text → ℤ
  pub time_left : ℤ

-- predicate, with the clauses that compiling it counts
pub record Compiled : Type 0 where
  pub test : Value → Bool
  pub clauses : ℕ

-- inferredString, inferredBoolean, inferredDecimal
abbrev inferred_string : Attribute
inferred_string = new_attribute 10 [] type_string

abbrev inferred_boolean : Attribute
inferred_boolean = new_attribute 11 [] type_boolean

abbrev inferred_decimal : Attribute
inferred_decimal = new_attribute 12 [] type_decimal

-- inferred
unfoldable pub inferred : Value → Attribute
unfolding new_attribute
inferred (text s) = inferred_string
inferred (boolean b) = inferred_boolean
inferred (number s) = inferred_decimal
inferred (float64 f) = inferred_decimal
inferred (int64 n) = inferred_decimal
inferred _ = permissive

-- isSimple
unfoldable pub is_simple : Attribute → Bool
is_simple a = not (is_permissive a) && not ((traits a).kind == type_complex)

module _ ⦃R : Runtime⦄ where
  -- field
  unfoldable pub field_of : Value → Text → Value
  field_of (object fs) name = get (entries fs) name
  field_of element name = if equal_fold name (bytes "value") then element else null

  -- matcher.resolve: `none` for the nil attribute
  unfoldable pub resolve_filtered : Attribute → AttrPath → Result (Option Attribute)
  resolve_filtered a path =
      let sub = sub_attribute a path.name in
      let qualified = not (path.uri == []) || not (path.sub_attribute == []) in
      if is_simple a && not qualified && equal_fold path.name (bytes "value")
      then ok (some a)
      else if not (is_permissive a) && (not (is_some sub) || qualified)
      then err err_invalid_filter
      else ok sub

  -- matcher.check
  unfoldable pub check_leaf : Attribute → Option Attribute → Operator → Value → Result (Unit {0})
  check_leaf parent none op want = ok tt
  check_leaf parent (some a) op want =
      if not (allowed (traits a).kind op)
        || (hidden (some parent) (some a) && not (op == op_equals))
      then err err_invalid_filter
      else if is_some (coerce a want)
      then ok tt
      else err err_invalid_value

  -- literal: the folded literal, where it is one of the attribute's type
  unfoldable pub filter_literal : Attribute → Operator → Value → Option Value
  filter_literal a op want = elim (coerce a want) [
    | none ↦ none
    | some v ↦ if allowed (traits a).kind op then some (fold a v) else none
  ]

  -- matcher.VisitPresence
  unfoldable pub presence_test : Attribute → AttrPath → Result Compiled
  presence_test a path = resolve_filtered a path >>= λ sub.
      if hidden (some a) sub
      then err err_invalid_filter
      else ok (record {
        test = λ element. not (is_unassigned (field_of element path.name));
        clauses = 1;
      })

  -- the attribute that a leaf reads by where there is no schema
  inferred_for : Value → Value → Attribute
  inferred_for null want = inferred want
  inferred_for got want = inferred got

  module _ ⦃L : Leftovers⦄ where
    left_over : AttributeType → Value → Value
    left_over type_string v = text []
    left_over type_reference v = text []
    left_over type_boolean v = boolean false
    left_over type_decimal (number s) = float64 (L.float_left s)
    left_over type_integer (number s) = int64 (L.int_left s)
    left_over type_integer (float64 f) = int64 (R.int_of_float f)
    left_over type_date_time (text s) = instant L.time_left
    left_over _ _ = null

    -- the value of Attribute.Coerce, whether it fails or not
    unfoldable pub coerced_anyway : Attribute → Value → Value
    unfolding left_over
    coerced_anyway a v = get_or (coerce a v) (left_over (traits a).kind v)

    matches_literal : Operator → Value → Option Value → Bool
    matches_literal op got none = false
    matches_literal op got (some expected) = match_values op got expected

    -- the two functions that matcher.leaf returns
    unfoldable pub leaf_test : Option Attribute → AttrPath → Operator → Value → Value → Bool
    unfolding matches_literal inferred_for
    leaf_test (some a) path op want element =
        matches_literal op (observed a (coerced_anyway a (field_of element path.name)))
          (filter_literal a op want)
    leaf_test none path op want element =
        let got = field_of element path.name in
        let typed = inferred_for got want in
        matches_literal op (fold typed (coerced_anyway typed got)) (filter_literal typed op want)

    -- matcher.leaf, of the nine comparisons
    unfoldable pub leaf : Attribute → Operator → AttrPath → Value → Result Compiled
    leaf parent op path want = resolve_filtered parent path >>= λ a.
        check_leaf parent a op want >> ok (record { test = leaf_test a path op want; clauses = 1 })

    -- matcher
    unfoldable pub matcher : Attribute → Visitor (Unit {0}) Compiled
    matcher a = record {
      visit_and = λ l r. ok (record {
        test = λ element. l.test element && r.test element;
        clauses = l.clauses + r.clauses;
      });
      visit_or = λ l r. ok (record {
        test = λ element. l.test element || r.test element;
        clauses = l.clauses + r.clauses;
      });
      visit_not =
          λ x. ok (record { test = λ element. not (x.test element); clauses = x.clauses + 1 });
      visit_comparison = λ s op path want. leaf a op path want;
      visit_presence = λ s path. presence_test a path;
      visit_value_path = λ s path inner. err err_invalid_path;
    }

    -- the errors of compile: a Go error that is no SCIM error is one of the path
    compile_result : Result Compiled → Result Compiled
    compile_result (ok c) = ok c
    compile_result (err e) = err (if error_is e err_internal then err_invalid_path else e)

    -- compile
    unfoldable pub compile : Attribute → Node → Result Compiled
    unfolding compile_result
    compile a n =
        if not (is_permissive a) && not (traits a).multi_valued
        then err err_invalid_filter
        else compile_result (visit (matcher a) tt n)
