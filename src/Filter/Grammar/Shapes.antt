-- ===== src/Filter/Grammar/Shapes.antt =====
-- pkg/filter/grammar.go: every tree that the grammar makes has the shape of a filter.
use scim_go.Prelude.{
  ℕ, zero, suc, Text, true, false, some, ◌≡◌, arith, bytes, inl, inr, Option-cases,
}
use mathlib.Core.Path.{subst}
use scim_go.Core.Value.{Value, null, boolean, text, number}
use scim_go.Filter.Operator.{op_present}
use scim_go.Filter.Scan.{Parser, space, str, attribute_path, number_lexeme, string_lexeme}
use scim_go.Filter.Scan.Paths.{IsAttribute, attribute_path-some}
use scim_go.Filter.Scan.Numbers.{number_lexeme-some}
use scim_go.Filter.Node.{Node, compared, present, value_path}
use scim_go.Filter.Strings.{Strings}
use scim_go.Filter.Grammar.{
  enclosed, paren_group, with_path, value_path_of, keyword, comparison_operator, constant_or,
  string_value, number_value, comparison_value, comparison, attribute_expression, value_atom,
  filter_atom, value_filter, filter,
}
use scim_go.Filter.Grammar.Parsed.{operator_some, enclosed-some, Makes, log-Makes, paren-Makes}
use scim_go.Filter.Grammar.Printing.{IsLiteral, IsValueFilter, IsFilter, IsValueFilter-IsFilter}

module _ ⦃S : Strings⦄ where
  string_makes : (s r : Text) (v : Value) → string_value s ≡ some (v, r) → IsLiteral v
  unfolding string_value IsLiteral
  string_makes s r v h = elim (Option-cases (string_lexeme s)) [
    | inl x ↦ absurd (ground arith)
    | inr ((w, r'), found) ↦ elim (Option-cases (S.unmarshal w)) [
      | inl x ↦ absurd (ground arith)
      | inr (out, made) ↦
          subst IsLiteral {x = text out} (ground arith) (S.unmarshal_valid w out made)
    ]
  ]

  number_makes : (s r : Text) (v : Value) → number_value s ≡ some (v, r) → IsLiteral v
  unfolding number_value IsLiteral
  number_makes s r v h = elim (Option-cases (number_lexeme s)) [
    | inl x ↦ string_makes s r v (ground arith)
    | inr ((w, r'), found) ↦
        subst IsLiteral {x = number w} (ground arith) (number_lexeme-some s w r' found)
  ]

  constant_makes :
      (literal : Text) (constant : Value) (others : Parser Value)
      → IsLiteral constant
      → ((s r : Text) (v : Value) → others s ≡ some (v, r) → IsLiteral v)
      → (s r : Text) (v : Value) → constant_or literal constant others s ≡ some (v, r)
      → IsLiteral v
  unfolding constant_or
  constant_makes literal constant others shape rest s r v h = elim (Option-cases (str literal s)) [
    | inl x ↦ rest s r v (ground arith)
    | inr (p, found) ↦ subst IsLiteral {x = constant} (ground arith) shape
  ]

  IsLiteral-makes : (s r : Text) (v : Value) → comparison_value s ≡ some (v, r) → IsLiteral v
  unfolding comparison_value IsLiteral
  IsLiteral-makes =
      constant_makes (bytes "false") (boolean false)
        (constant_or (bytes "null") null (constant_or (bytes "true") (boolean true) number_value))
        tt
        (constant_makes (bytes "null") null (constant_or (bytes "true") (boolean true) number_value)
          tt (constant_makes (bytes "true") (boolean true) number_value tt number_makes))

  comparison_makes :
      (a : Text) (s r : Text) (n : Node)
      → IsAttribute a
      → comparison a s ≡ some (n, r)
      → IsValueFilter n
  unfolding comparison IsValueFilter
  comparison_makes a s r n shape h = elim (Option-cases (comparison_operator s)) [
    | inl x ↦ absurd (ground arith)
    | inr ((op, s1), e1) ↦ elim (Option-cases (space s1)) [
      | inl x ↦ absurd (ground arith)
      | inr (s2, e2) ↦ elim (Option-cases (comparison_value s2)) [
        | inl x ↦ absurd (ground arith)
        | inr ((v, s3), e3) ↦
            subst IsValueFilter {x = compared a op v} {y = n} (ground arith)
              (shape, operator_some s s1 op e1, IsLiteral-makes s2 s3 v e3)
      ]
    ]
  ]

  attribute-Makes : Makes IsValueFilter attribute_expression
  unfolding attribute_expression IsValueFilter
  attribute-Makes s r n h = elim (Option-cases (attribute_path s)) [
    | inl x ↦ absurd (ground arith)
    | inr ((a, s1), e1) ↦ elim (Option-cases (space s1)) [
      | inl x ↦ absurd (ground arith)
      | inr (s2, e2) ↦ elim (Option-cases (keyword op_present s2)) [
        | inl x ↦ comparison_makes a s2 r n (attribute_path-some s a s1 e1) (ground arith)
        | inr (o, e3) ↦
            subst IsValueFilter {x = present a} {y = n} (ground arith)
              (attribute_path-some s a s1 e1)
      ]
    ]
  ]

  value_atom-Makes :
      (sub : Parser Node) → Makes IsValueFilter sub → Makes IsValueFilter (value_atom sub)
  unfolding value_atom IsValueFilter
  value_atom-Makes sub of_sub s r n h = elim (Option-cases (paren_group sub s)) [
    | inl x ↦ attribute-Makes s r n (ground arith)
    | inr ((m, r'), found) ↦
        paren-Makes IsValueFilter (λ l r h k. (h, k)) (λ l r h k. (h, k)) (λ n h. h) sub of_sub s r
          n (ground arith)
  ]

  value_filter-Makes : (fuel : ℕ) → Makes IsValueFilter (value_filter fuel)
  unfolding value_filter IsValueFilter
  value_filter-Makes zero s r n h = cc
  value_filter-Makes (suc fuel) s r n h =
      log-Makes IsValueFilter (λ l r h k. (h, k)) (λ l r h k. (h, k)) (λ n h. h)
        (value_atom (value_filter fuel)) (suc fuel) (value_filter fuel)
        (value_atom-Makes (value_filter fuel) (value_filter-Makes fuel)) (value_filter-Makes fuel) s
        r n h

  value_path-Makes :
      (value_sub : Parser Node)
      → Makes IsValueFilter value_sub
      → Makes IsFilter (value_path_of value_sub)
  unfolding value_path_of with_path IsFilter
  value_path-Makes value_sub of_sub s r n h = elim (Option-cases (attribute_path s)) [
    | inl x ↦ absurd (ground arith)
    | inr ((path, s1), e1) ↦ elim (Option-cases (enclosed b'[' value_sub b']' s1)) [
      | inl x ↦ absurd (ground arith)
      | inr ((f, s2), e2) ↦
          let (s', r', found) = enclosed-some b'[' b']' value_sub s1 s2 f e2 in
          subst IsFilter {x = value_path path f} {y = n} (ground arith)
            (attribute_path-some s path s1 e1, of_sub s' r' f found)
    ]
  ]

  filter_atom-Makes :
      (sub value_sub : Parser Node)
      → Makes IsFilter sub
      → Makes IsValueFilter value_sub
      → Makes IsFilter (filter_atom sub value_sub)
  unfolding filter_atom value_atom IsFilter
  filter_atom-Makes sub value_sub of_sub of_value s r n h =
      elim (Option-cases (paren_group sub s)) [
        | inl x ↦ elim (Option-cases (attribute_expression s)) [
          | inl y ↦ value_path-Makes value_sub of_value s r n (ground arith)
          | inr ((m, r'), found) ↦ IsValueFilter-IsFilter n (attribute-Makes s r n (ground arith))
        ]
        | inr ((m, r'), found) ↦
            paren-Makes IsFilter (λ l r h k. (h, k)) (λ l r h k. (h, k)) (λ n h. h) sub of_sub s r n
              (ground arith)
      ]

  pub filter-Makes : (fuel : ℕ) → Makes IsFilter (filter fuel)
  unfolding filter IsFilter
  filter-Makes zero s r n h = cc
  filter-Makes (suc fuel) s r n h =
      log-Makes IsFilter (λ l r h k. (h, k)) (λ l r h k. (h, k)) (λ n h. h)
        (filter_atom (filter fuel) (value_filter fuel)) (suc fuel) (filter fuel)
        (filter_atom-Makes (filter fuel) (value_filter fuel) (filter-Makes fuel)
          (value_filter-Makes fuel))
        (filter-Makes fuel) s r n h
