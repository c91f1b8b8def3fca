-- ===== src/Filter/Grammar/Parsed.antt =====
-- pkg/filter/grammar.go: every tree that the grammar makes has the shape of a filter.
use scim_go.Prelude.{
  ℕ, zero, suc, Text, true, Option, none, some, List, [], ◌∷◌, ◌≡◌, refl, sym, arith, bytes, inl,
  inr, Option-cases, all, ◌⊎◌,
}
use mathlib.Core.Path.{subst}
use scim_go.Filter.Operator.{
  Operator, op_and, op_or, op_equals, op_not_equals, op_contains, op_starts_with, op_ends_with,
  op_greater_than, op_greater_than_equals, op_less_than, op_less_than_equals,
}
use scim_go.Filter.Scan.{Parser, space, fold_str}
use scim_go.Filter.Node.{Node, conjunction, disjunction, negated}
use scim_go.Filter.Grammar.{
  byte, enclosed, optional_space, negate, paren_group, operand, binary, keyword, keywords,
  and_expression, log_expression, comparison_operator,
}
use scim_go.Filter.Grammar.Printing.{is_comparison}

pub keyword-some : (op found : Operator) (s r : Text) → keyword op s ≡ some (found, r) → found ≡ op
unfolding keyword
keyword-some op found s r h = ground arith

keywords-some :
    (ops : List Operator) (s r : Text) (op : Operator)
    → all is_comparison ops ≡ true
    → keywords ops s ≡ some (op, r)
    → is_comparison op ≡ true
unfolding keywords is_comparison
keywords-some [] s r op c h = cc
keywords-some (o ∷ ops) s r op c h = elim (Option-cases (keyword o s)) [
  | inl x ↦ ground (arith, keywords-some ops s r op)
  | inr ((found, r'), made) ↦ ground (arith, keyword-some o found s r' made)
]

pub operator_some :
    (s r : Text) (op : Operator) → comparison_operator s ≡ some (op, r) → is_comparison op ≡ true
unfolding comparison_operator is_comparison
operator_some s r op h =
    keywords-some
      (op_equals ∷ op_not_equals ∷ op_contains ∷ op_starts_with ∷ op_ends_with ∷ op_greater_than
        ∷ op_less_than ∷ op_greater_than_equals ∷ op_less_than_equals ∷ [])
      s r op refl h

pub enclosed-some :
    (left right : ℕ) (sub : Parser Node) (s r : Text) (n : Node)
    → enclosed left sub right s ≡ some (n, r)
    → (s' r' : Text) × (sub s' ≡ some (n, r'))
unfolding enclosed
enclosed-some left right sub s r n h = elim (Option-cases (byte left s)) [
  | inl x ↦ ground arith
  | inr (s1, found) ↦ elim (Option-cases (sub s1)) [
    | inl x ↦ ground arith
    | inr ((m, s2), made) ↦ (s1, s2, ground arith)
  ]
]

operand-some :
    (op : Operator) (right : Parser Node) (s r : Text) (n : Node)
    → operand op right s ≡ some (n, r)
    → (s' : Text) × (right s' ≡ some (n, r))
unfolding operand
operand-some op right s r n h = elim (Option-cases (space s)) [
  | inl x ↦ ground arith
  | inr (s1, found) ↦ elim (Option-cases (keyword op s1)) [
    | inl x ↦ ground arith
    | inr ((o, s2), made) ↦ elim (Option-cases (space s2)) [
      | inl x ↦ ground arith
      | inr (s3, last) ↦ (s3, ground arith)
    ]
  ]
]

binary-some :
    (node : Node → Node → Node) (l n : Node) (s r : Text) (o : Option (Node × Text))
    → binary node l s o ≡ (n, r)
    → (n ≡ l) ⊎ ((m : Node) × (r' : Text) × (o ≡ some (m, r')) × (n ≡ node l m))
unfolding binary
binary-some node l n s r none h = inl (ground arith)
binary-some node l n s r (some (m, r')) h = inr (m, r', refl, ground arith)

negate_some :
    (o : Option (Node × Text)) (n : Node) (r : Text)
    → negate o ≡ some (n, r)
    → (m : Node) × (o ≡ some (m, r)) × (n ≡ negated m)
unfolding negate
negate_some none n r h = cc
negate_some (some (m, r')) n r h = (m, ground arith, ground arith)

module _ (P : Node → Type 0) where
  abbrev pub Makes : Parser Node → Type 0
  Makes p = (s r : Text) (n : Node) → p s ≡ some (n, r) → P n

  binary_makes :
      (node : Node → Node → Node)
      → ((l r : Node) → P l → P r → P (node l r))
      → (op : Operator) (right : Parser Node) → Makes right
      → (l n : Node) (s r : Text) → P l
      → binary node l s (operand op right s) ≡ (n, r)
      → P n
  binary_makes node closed op right of_right l n s r shape h =
      elim (binary-some node l n s r (operand op right s) h) [
        | inl same ↦ subst P (sym same) shape
        | inr (m, r', made, same) ↦
            let (s', found) = operand-some op right s r' m made in
            subst P (sym same) (closed l m shape (of_right s' r' m found))
      ]

  module _ (and_closed : (l r : Node) → P l → P r → P (conjunction l r))
      (or_closed : (l r : Node) → P l → P r → P (disjunction l r))
      (not_closed : (n : Node) → P n → P (negated n)) where
    and_expression-Makes :
        (atom : Parser Node) (fuel : ℕ) → Makes atom → Makes (and_expression atom fuel)
    unfolding and_expression
    and_expression-Makes atom zero of_atom s r n h = cc
    and_expression-Makes atom (suc fuel) of_atom s r n h = elim (Option-cases (atom s)) [
      | inl x ↦ absurd (ground arith)
      | inr ((l, s1), found) ↦
          binary_makes conjunction and_closed op_and (and_expression atom fuel)
            (and_expression-Makes atom fuel of_atom) l n s1 r (of_atom s s1 l found) (ground arith)
    ]

    pub log-Makes :
        (atom : Parser Node) (fuel : ℕ) (fallback : Parser Node)
        → Makes atom
        → Makes fallback
        → Makes (log_expression atom fuel fallback)
    unfolding log_expression
    log-Makes atom fuel fallback of_atom of_fallback s r n h =
        elim (Option-cases (and_expression atom fuel s)) [
          | inl x ↦ absurd (ground arith)
          | inr ((l, s1), found) ↦
              binary_makes disjunction or_closed op_or fallback of_fallback l n s1 r
                (and_expression-Makes atom fuel of_atom s s1 l found) (ground arith)
        ]

    pub paren-Makes : (sub : Parser Node) → Makes sub → Makes (paren_group sub)
    unfolding paren_group
    paren-Makes sub of_sub s r n h = elim (Option-cases (fold_str (bytes "not") s)) [
      | inl x ↦
          let (s', r', found) = enclosed-some b'(' b')' sub s r n (ground arith) in
          of_sub s' r' n found
      | inr (s1, x) ↦
          let (m, made, same) =
            negate_some (enclosed b'(' sub b')' (optional_space s1)) n r (ground arith) in
          let (s', r', found) = enclosed-some b'(' b')' sub (optional_space s1) r m made in
          subst P (sym same) (not_closed m (of_sub s' r' m found))
    ]
