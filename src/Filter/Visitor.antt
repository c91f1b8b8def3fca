-- ===== src/Filter/Visitor.antt =====
-- pkg/filter/visitor.go and stringify.go: a fold over the syntax tree, and the printer as one.
use scim_go.Prelude.{Text, ◌++◌, bytes, if◌then◌else◌}
use scim_go.Errors.{Result, ok, err, ◌>>=◌, err_internal}
use scim_go.Core.Value.{Value, text, boolean, number}
use scim_go.Filter.Operator.{Operator, op_present, op_and, op_or, op_unset, operator_text}
use scim_go.Filter.Path.{AttrPath, split_attr_path, path_text}
use scim_go.Filter.Node.{Node, compared, present, conjunction, disjunction, negated, value_path}
use scim_go.Filter.Strings.{Strings}

-- Visitor. The nine methods for the comparison operators are one with the operator as argument. A
-- visitor that sets a field of its own while it runs the value filter, and sets it back after, is
-- handed the field's value: `Scope`.
pub record Visitor (Scope Out : Type 0) : Type 0 where
  pub visit_and : Out → Out → Result Out
  pub visit_or : Out → Out → Result Out
  pub visit_not : Out → Result Out
  pub visit_comparison : Scope → Operator → AttrPath → Value → Result Out
  pub visit_presence : Scope → AttrPath → Result Out
  pub visit_value_path : Scope → AttrPath → (Scope → Result Out) → Result Out

module _ {Scope Out : Type 0} (v : Visitor Scope Out) where
  -- dispatchComparison. A plain Go error is an internal one for who answers the request.
  unfoldable pub dispatch_comparison : Scope → Text → Operator → Value → Result Out
  unfolding split_attr_path
  dispatch_comparison s a op_present literal = err err_internal
  dispatch_comparison s a op_and literal = err err_internal
  dispatch_comparison s a op_or literal = err err_internal
  dispatch_comparison s a op_unset literal = err err_internal
  dispatch_comparison s a op literal = v.visit_comparison s op (split_attr_path a) literal

  -- Visit, dispatch and visitBinary
  unfoldable pub visit : Scope → Node → Result Out
  unfolding dispatch_comparison split_attr_path
  visit s (negated n) = visit s n >>= v.visit_not
  visit s (value_path path f) = v.visit_value_path s (split_attr_path path) (λ inner. visit inner f)
  visit s (conjunction l r) = visit s l >>= λ x. visit s r >>= λ y. v.visit_and x y
  visit s (disjunction l r) = visit s l >>= λ x. visit s r >>= λ y. v.visit_or x y
  visit s (present a) = v.visit_presence s (split_attr_path a)
  visit s (compared a op literal) = dispatch_comparison s a op literal

module _ ⦃S : Strings⦄ where
  -- stringifyValue, on the literals of a filter
  unfoldable pub stringify_value : Value → Text
  stringify_value (text s) = S.marshal s
  stringify_value (boolean b) = if b then bytes "true" else bytes "false"
  stringify_value (number w) = w
  stringify_value _ = bytes "null"

  -- Stringify
  unfoldable pub stringify : Visitor (Unit {0}) Text
  unfolding stringify_value path_text
  stringify = record {
    visit_and = λ l r. ok (bytes "(" ++ (l ++ (bytes " and " ++ (r ++ bytes ")"))));
    visit_or = λ l r. ok (bytes "(" ++ (l ++ (bytes " or " ++ (r ++ bytes ")"))));
    visit_not = λ x. ok (bytes "not (" ++ (x ++ bytes ")"));
    visit_comparison = λ s op a literal. ok (
        path_text a ++ (bytes " " ++ (operator_text op ++ (bytes " " ++ stringify_value literal))));
    visit_presence = λ s a. ok (path_text a ++ bytes " pr");
    visit_value_path =
        λ s path f. f tt >>= λ inner. ok (path_text path ++ (bytes "[" ++ (inner ++ bytes "]")));
  }
