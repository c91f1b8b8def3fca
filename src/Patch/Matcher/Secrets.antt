-- ===== src/Patch/Matcher/Secrets.antt =====
-- pkg/patch/matcher.go: what a value filter that compiles may ask, and how many clauses it counts.
use scim_go.Prelude.{
  ℕ, ◌+◌, Text, Bool, true, false, Option, none, some, ◌==◌, list_eq, nat_eq, not, ◌&&◌, ◌||◌, ◌≡◌,
  arith, inl, inr,
}
use scim_go.Runtime.{Runtime}
use scim_go.Errors.{Result, ok, err, Result-cases}
use scim_go.Core.Kinds.{type_eq}
use scim_go.Core.Value.{Value}
use scim_go.Core.Attribute.{Attribute}
use scim_go.Value.{hidden}
use scim_go.Filter.Operator.{Operator, op_equals, op_present, op_and, op_or, op_unset, op_eq}
use scim_go.Filter.Path.{AttrPath, split_attr_path}
use scim_go.Filter.Node.{Node, compared, present, conjunction, disjunction, negated, value_path}
use scim_go.Filter.Visitor.{visit, dispatch_comparison}
use scim_go.Patch.Matcher.{
  Leftovers, Compiled, resolve_filtered, check_leaf, presence_test, leaf, matcher, compile,
  compile_result,
}

module _ ⦃R : Runtime⦄ where
  -- A test may be asked of the attribute that a path resolves to: of a hidden one only eq. Where
  -- there is no schema a path resolves to none.
  permits : Attribute → Operator → Result (Option Attribute) → Bool
  permits parent op (err e) = false
  permits parent op (ok none) = true
  permits parent op (ok (some a)) = not (hidden (some parent) (some a)) || op == op_equals

  -- Every test of the filter may be asked, and none stands within another value path.
  unfoldable pub is_discreet : Attribute → Node → Bool
  unfolding permits
  is_discreet a (compared path op v) = permits a op (resolve_filtered a (split_attr_path path))
  is_discreet a (present path) = permits a op_present (resolve_filtered a (split_attr_path path))
  is_discreet a (conjunction l r) = is_discreet a l && is_discreet a r
  is_discreet a (disjunction l r) = is_discreet a l && is_discreet a r
  is_discreet a (negated n) = is_discreet a n
  is_discreet a (value_path path n) = false

-- The tests and the negations of a filter
unfoldable pub clauses_of : Node → ℕ
clauses_of (compared path op v) = 1
clauses_of (present path) = 1
clauses_of (conjunction l r) = clauses_of l + clauses_of r
clauses_of (disjunction l r) = clauses_of l + clauses_of r
clauses_of (negated n) = clauses_of n + 1
clauses_of (value_path path n) = 0

module _ ⦃R : Runtime⦄ ⦃L : Leftovers⦄ (a : Attribute) where
  leaf-discreet :
      (path : AttrPath) (op : Operator) (v : Value) (c : Compiled)
      → leaf a op path v ≡ ok c
      → (permits a op (resolve_filtered a path) ≡ true) × (c.clauses ≡ 1)
  unfolding leaf check_leaf permits
  leaf-discreet path op v c e = elim (Result-cases (resolve_filtered a path)) [
    | inl (x, m) ↦ absurd (ground arith)
    | inr (none, m) ↦ (ground arith, ground arith)
    | inr (some sub, m) ↦ (ground arith, ground arith)
  ]

  presence-discreet :
      (path : AttrPath) (c : Compiled)
      → presence_test a path ≡ ok c
      → (permits a op_present (resolve_filtered a path) ≡ true) × (c.clauses ≡ 1)
  unfolding presence_test permits
  presence-discreet path c e = elim (Result-cases (resolve_filtered a path)) [
    | inl (x, m) ↦ absurd (ground arith)
    | inr (none, m) ↦ (ground arith, ground arith)
    | inr (some sub, m) ↦ (ground arith, ground arith)
  ]

  compared-discreet :
      (path : Text) (op : Operator) (v : Value) (c : Compiled)
      → dispatch_comparison (matcher a) tt path op v ≡ ok c
      → (permits a op (resolve_filtered a (split_attr_path path)) ≡ true) × (c.clauses ≡ 1)
  unfolding dispatch_comparison matcher
  compared-discreet path op_present v c e = cc
  compared-discreet path op_and v c e = cc
  compared-discreet path op_or v c e = cc
  compared-discreet path op_unset v c e = cc
  compared-discreet path op v c e = leaf-discreet (split_attr_path path) op v c e

  visit-discreet :
      (n : Node) (c : Compiled)
      → visit (matcher a) tt n ≡ ok c
      → (is_discreet a n ≡ true) × (c.clauses ≡ clauses_of n)
  unfolding visit matcher is_discreet clauses_of
  visit-discreet (compared path op v) c e = compared-discreet path op v c e
  visit-discreet (present path) c e = presence-discreet (split_attr_path path) c e
  visit-discreet (value_path path n) c e = cc
  visit-discreet (negated n) c e = elim (Result-cases (visit (matcher a) tt n)) [
    | inl (x, m) ↦ absurd (ground arith)
    | inr (b, m) ↦ ground (arith, visit-discreet n b)
  ]
  visit-discreet (conjunction l r) c e = elim (Result-cases (visit (matcher a) tt l)) [
    | inl (x, m) ↦ absurd (ground arith)
    | inr (b, m) ↦ elim (Result-cases (visit (matcher a) tt r)) [
      | inl (x, n) ↦ absurd (ground arith)
      | inr (d, n) ↦ ground (arith, visit-discreet l b, visit-discreet r d)
    ]
  ]
  visit-discreet (disjunction l r) c e = elim (Result-cases (visit (matcher a) tt l)) [
    | inl (x, m) ↦ absurd (ground arith)
    | inr (b, m) ↦ elim (Result-cases (visit (matcher a) tt r)) [
      | inl (x, n) ↦ absurd (ground arith)
      | inr (d, n) ↦ ground (arith, visit-discreet l b, visit-discreet r d)
    ]
  ]

  -- A value filter that compiles asks nothing of a hidden attribute but eq, holds no value path, and
  -- is counted by its tests and negations.
  pub compile-is_discreet :
      (n : Node) (c : Compiled)
      → compile a n ≡ ok c
      → (is_discreet a n ≡ true) × (c.clauses ≡ clauses_of n)
  unfolding compile compile_result
  compile-is_discreet n c e = elim (Result-cases (visit (matcher a) tt n)) [
    | inl (x, m) ↦ absurd (ground arith)
    | inr (b, m) ↦ ground (arith, visit-discreet n b)
  ]
