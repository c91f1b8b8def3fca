-- ===== src/Filter/Grammar/Shrinking.antt =====
-- pkg/filter/grammar.go: no parser leaves more than it was given.
use scim_go.Prelude.{
  ℕ, zero, suc, ◌≤◌, Text, Option, none, some, ◌≡◌, arith, bytes, inl, inr, Option-cases, length,
}
use scim_go.Filter.Operator.{Operator, op_and, op_or}
use scim_go.Filter.Scan.{Parser, space, fold_str}
use scim_go.Filter.Scan.Lengths.{length-space, length-fold_str}
use scim_go.Filter.Node.{Node, conjunction, disjunction}
use scim_go.Filter.Grammar.{
  byte, enclosed, optional_space, negate, paren_group, operand, binary, keyword, and_expression,
  log_expression,
}
use scim_go.Filter.Grammar.Agreement.{length-byte, length-optional_space, length-keyword}

-- A parser leaves no more than it was given.
abbrev pub NoLonger : {A : Type 0} → Parser A → Type 0
NoLonger {A} p = (s r : Text) (a : A) → p s ≡ some (a, r) → length r ≤ length s

pub enclosed-NoLonger :
    (left right : ℕ) (p : Parser Node) → NoLonger p → NoLonger (enclosed left p right)
unfolding enclosed
enclosed-NoLonger left right p bound s r n h = elim (Option-cases (byte left s)) [
  | inl x ↦ ground arith
  | inr (s1, e1) ↦ elim (Option-cases (p s1)) [
    | inl x ↦ ground arith
    | inr ((m, s2), e2) ↦ elim (Option-cases (byte right s2)) [
      | inl x ↦ ground arith
      | inr (s3, e3) ↦
          ground (arith, length-byte left s s1 e1, bound s1 s2 m e2, length-byte right s2 s3 e3)
    ]
  ]
]

pub operand-NoLonger : (op : Operator) (p : Parser Node) → NoLonger p → NoLonger (operand op p)
unfolding operand
operand-NoLonger op p bound s r n h = elim (Option-cases (space s)) [
  | inl x ↦ ground arith
  | inr (s1, e1) ↦ elim (Option-cases (keyword op s1)) [
    | inl x ↦ ground arith
    | inr ((o, s2), e2) ↦ elim (Option-cases (space s2)) [
      | inl x ↦ ground arith
      | inr (s3, e3) ↦ ground (
        arith,
        length-space s s1 e1,
        length-keyword op o s1 s2 e2,
        length-space s2 s3 e3,
        bound s3 r n,
      )
    ]
  ]
]

negate-NoLonger :
    (o : Option (Node × Text)) (k : ℕ) (r : Text) (n : Node)
    → ((m : Node) → o ≡ some (m, r) → length r ≤ k)
    → negate o ≡ some (n, r)
    → length r ≤ k
unfolding negate
negate-NoLonger none k r n bound h = cc
negate-NoLonger (some (m, r')) k r n bound h = bound m (ground arith)

pub paren_group-NoLonger : (p : Parser Node) → NoLonger p → NoLonger (paren_group p)
unfolding paren_group
paren_group-NoLonger p bound s r n h = elim (Option-cases (fold_str (bytes "not") s)) [
  | inl x ↦ ground (arith, enclosed-NoLonger b'(' b')' p bound s r n)
  | inr (s1, found) ↦
      negate-NoLonger (enclosed b'(' p b')' (optional_space s1)) (length s) r n
        (λ m made. omega (
          arith,
          enclosed-NoLonger b'(' b')' p bound (optional_space s1) r m made,
          length-optional_space s1,
          length-fold_str (bytes "not") s s1 found,
        ))
        (ground arith)
]

binary-NoLonger :
    (node : Node → Node → Node) (l n : Node) (s r : Text) (o : Option (Node × Text)) (k : ℕ)
    → length s ≤ k
    → ((m : Node) → o ≡ some (m, r) → length r ≤ k)
    → binary node l s o ≡ (n, r)
    → length r ≤ k
unfolding binary
binary-NoLonger node l n s r none k h bound e = ground arith
binary-NoLonger node l n s r (some (m, r')) k h bound e = bound m (ground arith)

pub and_expression-NoLonger :
    (p : Parser Node) (fuel : ℕ) → NoLonger p → NoLonger (and_expression p fuel)
unfolding and_expression
and_expression-NoLonger p zero bound s r n h = cc
and_expression-NoLonger p (suc fuel) bound s r n h = elim (Option-cases (p s)) [
  | inl x ↦ ground arith
  | inr ((l, s1), e1) ↦
      binary-NoLonger conjunction l n s1 r (operand op_and (and_expression p fuel) s1) (length s)
        (bound s s1 l e1)
        (λ m made. omega (
          arith,
          bound s s1 l e1,
          operand-NoLonger op_and (and_expression p fuel) (and_expression-NoLonger p fuel bound) s1
              r m made,
        ))
        (ground arith)
]

pub log_expression-NoLonger :
    (p : Parser Node) (fuel : ℕ) (q : Parser Node)
    → NoLonger p
    → NoLonger q
    → NoLonger (log_expression p fuel q)
unfolding log_expression
log_expression-NoLonger p fuel q bound bound_q s r n h =
    elim (Option-cases (and_expression p fuel s)) [
      | inl x ↦ ground arith
      | inr ((l, s1), e1) ↦
          let first = and_expression-NoLonger p fuel bound s s1 l e1 in
          binary-NoLonger disjunction l n s1 r (operand op_or q s1) (length s) first
            (λ m made. omega (arith, first, operand-NoLonger op_or q bound_q s1 r m made))
            (ground arith)
    ]
