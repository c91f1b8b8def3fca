-- ===== src/Filter/Grammar/Bounded.antt =====
-- pkg/filter/grammar.go: the atoms and the filters leave no more than they were given.
use scim_go.Prelude.{
  ℕ, zero, suc, ◌≤◌, Text, some, List, [], ◌∷◌, ◌≡◌, arith, bytes, inl, inr, Option-cases, length,
}
use scim_go.Core.Value.{Value}
use scim_go.Filter.Operator.{
  Operator, op_present, op_equals, op_not_equals, op_contains, op_starts_with, op_ends_with,
  op_greater_than, op_less_than, op_greater_than_equals, op_less_than_equals,
}
use scim_go.Filter.Scan.{Parser, space, str, attribute_path, number_lexeme, string_lexeme}
use scim_go.Filter.Scan.Lengths.{
  length-space, length-attribute_path, length-number_lexeme, length-string_lexeme, length-str,
}
use scim_go.Filter.Node.{Node}
use scim_go.Filter.Strings.{Strings}
use scim_go.Filter.Grammar.{
  keyword, keywords, comparison_operator, constant_or, string_value, number_value, comparison_value,
  comparison, attribute_expression, enclosed, with_path, value_path_of, paren_group, value_atom,
  filter_atom, value_filter, filter,
}
use scim_go.Filter.Grammar.Agreement.{length-keyword}
use scim_go.Filter.Grammar.Shrinking.{
  NoLonger, enclosed-NoLonger, paren_group-NoLonger, log_expression-NoLonger,
}

length-keywords :
    (ops : List Operator) (s r : Text) (o : Operator)
    → keywords ops s ≡ some (o, r)
    → length r ≤ length s
unfolding keywords
length-keywords [] s r o h = cc
length-keywords (op ∷ ops) s r o h = elim (Option-cases (keyword op s)) [
  | inl n ↦ ground (arith, length-keywords ops s r o)
  | inr ((x, r'), found) ↦ ground (arith, length-keyword op x s r' found)
]

comparison_operator-NoLonger : NoLonger comparison_operator
unfolding comparison_operator
comparison_operator-NoLonger s r o h =
    length-keywords
      (op_equals ∷ op_not_equals ∷ op_contains ∷ op_starts_with ∷ op_ends_with ∷ op_greater_than
        ∷ op_less_than ∷ op_greater_than_equals ∷ op_less_than_equals ∷ [])
      s r o h

constant_or-NoLonger :
    (literal : Text) (v : Value) (others : Parser Value)
    → NoLonger others
    → NoLonger (constant_or literal v others)
unfolding constant_or
constant_or-NoLonger literal v others bound s r w h = elim (Option-cases (str literal s)) [
  | inl n ↦ ground (arith, bound s r w)
  | inr ((x, r'), found) ↦ ground (arith, length-str literal s x r' found)
]

module _ ⦃S : Strings⦄ where
  string_value-NoLonger : NoLonger string_value
  unfolding string_value
  string_value-NoLonger s r v h = elim (Option-cases (string_lexeme s)) [
    | inl n ↦ ground arith
    | inr ((w, r'), found) ↦ elim (Option-cases (S.unmarshal w)) [
      | inl n ↦ ground arith
      | inr (out, made) ↦ ground (arith, length-string_lexeme s w r' found)
    ]
  ]

  number_value-NoLonger : NoLonger number_value
  unfolding number_value
  number_value-NoLonger s r v h = elim (Option-cases (number_lexeme s)) [
    | inl n ↦ ground (arith, string_value-NoLonger s r v)
    | inr ((w, r'), found) ↦ ground (arith, length-number_lexeme s w r' found)
  ]

  comparison_value-NoLonger : NoLonger comparison_value
  unfolding comparison_value
  comparison_value-NoLonger = constant_or-NoLonger (bytes "false") _ _ (
      constant_or-NoLonger (bytes "null") _ _
        (constant_or-NoLonger (bytes "true") _ _ number_value-NoLonger))

  comparison-NoLonger : (a : Text) → NoLonger (comparison a)
  unfolding comparison
  comparison-NoLonger a s r n h = elim (Option-cases (comparison_operator s)) [
    | inl x ↦ ground arith
    | inr ((op, s1), e1) ↦ elim (Option-cases (space s1)) [
      | inl x ↦ ground arith
      | inr (s2, e2) ↦ elim (Option-cases (comparison_value s2)) [
        | inl x ↦ ground arith
        | inr ((v, s3), e3) ↦ ground (
          arith,
          comparison_operator-NoLonger s s1 op e1,
          length-space s1 s2 e2,
          comparison_value-NoLonger s2 s3 v e3,
        )
      ]
    ]
  ]

  attribute_expression-NoLonger : NoLonger attribute_expression
  unfolding attribute_expression
  attribute_expression-NoLonger s r n h = elim (Option-cases (attribute_path s)) [
    | inl x ↦ ground arith
    | inr ((a, s1), e1) ↦ elim (Option-cases (space s1)) [
      | inl x ↦ ground arith
      | inr (s2, e2) ↦ elim (Option-cases (keyword op_present s2)) [
        | inl x ↦ ground (
          arith,
          length-attribute_path s a s1 e1,
          length-space s1 s2 e2,
          comparison-NoLonger a s2 r n,
        )
        | inr ((o, s3), e3) ↦ ground (
          arith,
          length-attribute_path s a s1 e1,
          length-space s1 s2 e2,
          length-keyword op_present o s2 s3 e3,
        )
      ]
    ]
  ]

  pub value_atom-NoLonger : (p : Parser Node) → NoLonger p → NoLonger (value_atom p)
  unfolding value_atom
  value_atom-NoLonger p bound s r n h = elim (Option-cases (paren_group p s)) [
    | inl x ↦ ground (arith, attribute_expression-NoLonger s r n)
    | inr ((m, r'), found) ↦ ground (arith, paren_group-NoLonger p bound s r' m found)
  ]

  value_path_of-NoLonger : (p : Parser Node) → NoLonger p → NoLonger (value_path_of p)
  unfolding value_path_of with_path
  value_path_of-NoLonger p bound s r n h = elim (Option-cases (attribute_path s)) [
    | inl x ↦ ground arith
    | inr ((a, s1), e1) ↦ elim (Option-cases (enclosed b'[' p b']' s1)) [
      | inl x ↦ ground arith
      | inr ((m, s2), e2) ↦
          ground
            (arith, length-attribute_path s a s1 e1, enclosed-NoLonger b'[' b']' p bound s1 s2 m e2)
    ]
  ]

  pub filter_atom-NoLonger :
      (p q : Parser Node) → NoLonger p → NoLonger q → NoLonger (filter_atom p q)
  unfolding filter_atom
  filter_atom-NoLonger p q bound bound_q s r n h = elim (Option-cases (value_atom p s)) [
    | inl x ↦ ground (arith, value_path_of-NoLonger q bound_q s r n)
    | inr ((m, r'), found) ↦ ground (arith, value_atom-NoLonger p bound s r' m found)
  ]

  pub value_filter-NoLonger : (fuel : ℕ) → NoLonger (value_filter fuel)
  unfolding value_filter
  value_filter-NoLonger zero s r n h = cc
  value_filter-NoLonger (suc fuel) s r n h =
      log_expression-NoLonger (value_atom (value_filter fuel)) (suc fuel) (value_filter fuel)
        (value_atom-NoLonger (value_filter fuel) (value_filter-NoLonger fuel))
        (value_filter-NoLonger fuel) s r n h

  pub filter-NoLonger : (fuel : ℕ) → NoLonger (filter fuel)
  unfolding filter
  filter-NoLonger zero s r n h = cc
  filter-NoLonger (suc fuel) s r n h =
      log_expression-NoLonger (filter_atom (filter fuel) (value_filter fuel)) (suc fuel)
        (filter fuel)
        (filter_atom-NoLonger (filter fuel) (value_filter fuel) (filter-NoLonger fuel)
          (value_filter-NoLonger fuel))
        (filter-NoLonger fuel) s r n h
