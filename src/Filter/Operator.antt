-- ===== src/Filter/Operator.antt =====
-- pkg/filter/operator.go: the attribute operators, and the two logical ones.
use scim_go.Prelude.{Eq, Text, bytes}

-- Operator. In Go these are strings; `op_unset` is the empty one.
pub data Operator : Type 0 where
  op_equals op_not_equals op_contains op_starts_with op_ends_with : Operator
  op_greater_than op_greater_than_equals op_less_than op_less_than_equals : Operator
  op_present op_and op_or op_unset : Operator

Operator-discrete : Discrete Operator
Operator-discrete = hlevel

instance unfoldable pub op_eq : Eq Operator
unfolding Operator-discrete
op_eq = record { dec = Operator-discrete }

-- The spelling of each operator.
unfoldable pub operator_text : Operator → Text
operator_text op_equals = bytes "eq"
operator_text op_not_equals = bytes "ne"
operator_text op_contains = bytes "co"
operator_text op_starts_with = bytes "sw"
operator_text op_ends_with = bytes "ew"
operator_text op_greater_than = bytes "gt"
operator_text op_greater_than_equals = bytes "ge"
operator_text op_less_than = bytes "lt"
operator_text op_less_than_equals = bytes "le"
operator_text op_present = bytes "pr"
operator_text op_and = bytes "and"
operator_text op_or = bytes "or"
operator_text op_unset = bytes ""
