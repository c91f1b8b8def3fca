-- ===== src/Value/Compare.antt =====
-- internal/value/compare.go: equality, order and the filter operators on values. `Compare` is
-- `none` where the Go function reports that the values are not comparable.
use scim_go.Prelude.{
  ℕ, Text, Bool, true, false, Option, none, some, List, ◌==◌, list_eq, nat_eq, int_eq,
  if◌then◌else◌, ◌&&◌, ◌||◌, not, Ordering, compare, int_compare, text_lt, any, has_prefix,
  has_suffix, contains_text, get_or, length,
}
use scim_go.Prelude.Dict.{lookup}
use scim_go.Runtime.{Runtime}
use scim_go.Core.Kinds.{
  AttributeType, type_string, type_decimal, type_integer, type_date_time, type_reference,
  type_complex, type_eq,
}
use scim_go.Core.Value.{
  Value, Items, Fields, Object, null, text, boolean, number, int64, float64, instant, array, object,
  nil, cons, end, field, entries,
}
use scim_go.Core.Attribute.{Attribute}
use scim_go.Core.Coerce.{coerce, fold}
use scim_go.Value.{is_unassigned}
use scim_go.Filter.Operator.{
  Operator, op_equals, op_not_equals, op_contains, op_starts_with, op_ends_with, op_greater_than,
  op_greater_than_equals, op_less_than, op_less_than_equals, op_eq,
}

-- Allowed
unfoldable pub allowed : AttributeType → Operator → Bool
allowed t op_equals = not (t == type_complex)
allowed t op_not_equals = not (t == type_complex)
allowed t op_contains = t == type_string || t == type_reference
allowed t op_starts_with = t == type_string || t == type_reference
allowed t op_ends_with = t == type_string || t == type_reference
allowed t op_greater_than =
    t == type_string
    || t == type_reference
    || t == type_date_time
    || t == type_integer
    || t == type_decimal
allowed t op_greater_than_equals =
    t == type_string
    || t == type_reference
    || t == type_date_time
    || t == type_integer
    || t == type_decimal
allowed t op_less_than =
    t == type_string
    || t == type_reference
    || t == type_date_time
    || t == type_integer
    || t == type_decimal
allowed t op_less_than_equals =
    t == type_string
    || t == type_reference
    || t == type_date_time
    || t == type_integer
    || t == type_decimal
allowed t _ = false

-- cmp.Compare on strings
abbrev pub text_compare : Text → Text → Ordering
text_compare a b =
    if text_lt a b then Ordering.lt else if text_lt b a then Ordering.gt else Ordering.eq

-- cmp.Compare(rank(x), rank(y))
rank : Bool → ℕ
rank true = 1
rank false = 0

module _ ⦃R : Runtime⦄ where
  -- Compare, where each case is the generic `compare` at its type
  unfoldable pub compare_values : Value → Value → Option Ordering
  unfolding rank
  compare_values (text x) (text y) = some (text_compare x y)
  compare_values (int64 x) (int64 y) = some (int_compare x y)
  compare_values (float64 x) (float64 y) = some (R.float_compare x y)
  compare_values (boolean x) (boolean y) = some (compare (rank x) (rank y))
  compare_values (instant x) (instant y) = some (int_compare x y)
  compare_values _ _ = none

  -- canonical, with `typed`
  unfoldable pub canonical : Attribute → Value → Value
  canonical a v = fold a (get_or (coerce a v) v)

-- reflect.DeepEqual: maps are equal in whatever order they are listed.
mutual
  pub deep_equal : Value → Value → Bool
  deep_equal null null = true
  deep_equal (text a) (text b) = a == b
  deep_equal (boolean true) (boolean b) = b
  deep_equal (boolean false) (boolean b) = not b
  deep_equal (number a) (number b) = a == b
  deep_equal (int64 a) (int64 b) = a == b
  deep_equal (float64 a) (float64 b) = a == b
  deep_equal (instant a) (instant b) = a == b
  deep_equal (array a) (array b) = deep_equal_items a b
  deep_equal (object a) (object b) =
      length (entries a) == length (entries b) && deep_equal_fields a (entries b)
  deep_equal _ _ = false

  pub deep_equal_items : Items → Items → Bool
  deep_equal_items nil nil = true
  deep_equal_items (cons a as') (cons b bs) = deep_equal a b && deep_equal_items as' bs
  deep_equal_items _ _ = false

  pub deep_equal_fields : Fields → Object → Bool
  deep_equal_fields end o = true
  deep_equal_fields (field k v fs) o =
      elim (lookup k o) [ none ↦ false | some w ↦ deep_equal v w ] && deep_equal_fields fs o

-- strings.Contains, HasPrefix or HasSuffix on two texts, by operator
unfoldable pub substring : Operator → Value → Value → Bool
substring op_contains (text g) (text w) = contains_text g w
substring op_starts_with (text g) (text w) = has_prefix g w
substring _ (text g) (text w) = has_suffix g w
substring _ _ _ = false

match_null : Operator → Value → Bool
match_null op_equals got = is_unassigned got
match_null op_not_equals got = not (is_unassigned got)
match_null _ got = false

-- holds, of the sign of a comparison
unfoldable pub holds : Operator → Ordering → Bool
holds op_equals Ordering.eq = true
holds op_equals _ = false
holds op_not_equals Ordering.eq = false
holds op_not_equals _ = true
holds op_greater_than Ordering.gt = true
holds op_greater_than _ = false
holds op_greater_than_equals Ordering.lt = false
holds op_greater_than_equals _ = true
holds op_less_than Ordering.lt = true
holds op_less_than _ = false
holds op_less_than_equals Ordering.gt = false
holds op_less_than_equals _ = true
holds _ _ = false

abbrev is_substring_operator : Operator → Bool
is_substring_operator op = op == op_contains || op == op_starts_with || op == op_ends_with

module _ ⦃R : Runtime⦄ where
  -- Equal
  unfoldable pub equal : Attribute → Value → Value → Bool
  unfolding deep_equal
  equal a x y = elim (compare_values (canonical a x) (canonical a y)) [
    | some Ordering.eq ↦ true
    | some _ ↦ false
    | none ↦ deep_equal x y
  ]

  -- Contains
  unfoldable pub contains_value : Attribute → List Value → Value → Bool
  contains_value a elements want = any (λ element. equal a element want) elements

  -- the part of Match for a literal that is not null
  match_literal : Operator → Value → Value → Bool
  match_literal op got want =
      if is_substring_operator op then substring op got want else elim (compare_values got want) [
        | none ↦ op == op_not_equals && is_unassigned got
        | some order ↦ holds op order
      ]

  -- Match
  unfoldable pub match_values : Operator → Value → Value → Bool
  unfolding match_null match_literal
  match_values op got null = match_null op got
  match_values op got want = match_literal op got want
