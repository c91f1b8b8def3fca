-- ===== src/Value/Matching.antt =====
-- internal/value/compare.go: what Compare and Match promise for each operator.
use scim_go.Prelude.{
  Text, true, false, Option, none, some, ◌==◌, not, ◌||◌, Ordering, swap, ◌≡◌, ◌≢◌, refl, arith,
  int_compare, text_lt_asymm, ℤ,
}
use scim_go.Runtime.{Runtime}
use scim_go.Core.Value.{Value, null, text, boolean, int64, float64, instant}
use scim_go.Value.{is_unassigned}
use scim_go.Value.Compare.{compare_values, match_values, holds, substring, text_compare}
use scim_go.Filter.Operator.{
  Operator, op_equals, op_not_equals, op_contains, op_greater_than, op_greater_than_equals,
  op_less_than, op_less_than_equals, op_eq,
}

text_compare-swap : (a b : Text) → text_compare a b ≡ swap (text_compare b a)
text_compare-swap a b = ground (arith, text_lt_asymm a b, text_lt_asymm b a)

int_compare-swap : (a b : ℤ) → int_compare a b ≡ swap (int_compare b a)
int_compare-swap (ℤ.pos a) b = ground arith
int_compare-swap (ℤ.negsuc a) b = ground arith

abbrev pub swap_found : Option Ordering → Option Ordering
swap_found none = none
swap_found (some o) = some (swap o)

substring_null : (op : Operator) (want : Value) → substring op null want ≡ false
unfolding substring
substring_null op_contains want = refl
substring_null _ want = refl

module _ ⦃R : Runtime⦄ where
  -- Compare is antisymmetric, and two values are comparable in both orders or in neither.
  pub compare_values_swap : (a b : Value) → compare_values a b ≡ swap_found (compare_values b a)
  unfolding compare_values
  compare_values_swap (text x) (text y) = ground (arith, text_compare-swap x y)
  compare_values_swap (int64 x) (int64 y) = ground (arith, int_compare-swap x y)
  compare_values_swap (float64 x) (float64 y) = ground (arith, R.float_compare_swap x y)
  compare_values_swap (instant x) (instant y) = ground (arith, int_compare-swap x y)
  compare_values_swap (boolean true) (boolean true) = refl
  compare_values_swap (boolean true) (boolean false) = refl
  compare_values_swap (boolean false) (boolean true) = refl
  compare_values_swap (boolean false) (boolean false) = refl
  compare_values_swap null null = refl
  compare_values_swap _ null = refl
  compare_values_swap _ _ = refl

  -- The operators on two comparable values: "ne" denies "eq", "le" denies "gt", "ge" denies "lt",
  -- and "ge" is "gt" or "eq".
  pub match_comparable :
      (got want : Value) (o : Ordering)
      → want ≢ null
      → compare_values got want ≡ some o
      → (match_values op_not_equals got want ≡ not (match_values op_equals got want))
        × (match_values op_less_than_equals got want ≡ not (match_values op_greater_than got want))
        × (match_values op_greater_than_equals got want ≡ not (match_values op_less_than got want))
        × (match_values op_greater_than_equals got want
            ≡ (match_values op_greater_than got want || match_values op_equals got want))
  unfolding match_values holds
  match_comparable got null o n h = absurd (n refl)
  match_comparable got (text s) o n h = ground arith
  match_comparable got _ o n h = ground arith

  -- A missing value satisfies "ne" with every literal but null, and no other operator.
  pub match_missing :
      (op : Operator) (want : Value)
      → want ≢ null
      → match_values op null want ≡ (op == op_not_equals)
  unfolding match_values compare_values is_unassigned
  match_missing op null n = absurd (n refl)
  match_missing op (text s) n = ground (arith, substring_null op (text s))
  match_missing op want n = ground (arith, substring_null op want)
