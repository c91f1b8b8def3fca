-- ===== src/Filter/Grammar/Agreement.antt =====
-- pkg/filter/grammar.go: parsers that agree on short texts, and what is made of them.
use scim_go.Prelude.{
  ℕ, suc, ◌<◌, ◌≤◌, Text, some, [], ◌∷◌, ◌≡◌, arith, bytes, inl, inr, Option-cases, length,
}
use scim_go.Filter.Operator.{Operator, operator_text}
use scim_go.Filter.Scan.{Parser, space, fold_str, attribute_path}
use scim_go.Filter.Scan.Lengths.{length-space, length-fold_str, length-attribute_path}
use scim_go.Filter.Node.{Node}
use scim_go.Filter.Grammar.{
  byte, enclosed, optional_space, paren_group, value_path_of, operand, keyword,
}

-- Two parsers agree on the texts of a length up to the bound.
abbrev pub Agree : ℕ → Parser Node → Parser Node → Type 0
Agree n p q = (s : Text) → length s ≤ n → p s ≡ q s

pub length-byte : (c : ℕ) (s r : Text) → byte c s ≡ some r → length r < length s
unfolding byte
length-byte c [] r h = cc
length-byte c (d ∷ s) r h = ground arith

pub length-optional_space : (s : Text) → length (optional_space s) ≤ length s
length-optional_space s = elim (Option-cases (space s)) [
  | inl n ↦ ground arith
  | inr (r, found) ↦ ground (arith, length-space s r found)
]

pub enclosed-Agree :
    (left right n : ℕ) (p q : Parser Node)
    → Agree n p q
    → Agree (suc n) (enclosed left p right) (enclosed left q right)
unfolding enclosed
enclosed-Agree left right n p q same s h = elim (Option-cases (byte left s)) [
  | inl x ↦ ground arith
  | inr (r, found) ↦ ground (arith, same r (omega (arith, length-byte left s r found)))
]

pub paren_group-Agree :
    (n : ℕ) (p q : Parser Node) → Agree n p q → Agree (suc n) (paren_group p) (paren_group q)
unfolding paren_group
paren_group-Agree n p q same s h = elim (Option-cases (fold_str (bytes "not") s)) [
  | inl x ↦ ground (arith, enclosed-Agree b'(' b')' n p q same s h)
  | inr (r, found) ↦ ground (
    arith,
    enclosed-Agree b'(' b')' n p q same (optional_space r)
        (omega (arith, length-optional_space r, length-fold_str (bytes "not") s r found)),
  )
]

pub value_path_of-Agree :
    (n : ℕ) (p q : Parser Node) → Agree n p q → Agree (suc n) (value_path_of p) (value_path_of q)
unfolding value_path_of
value_path_of-Agree n p q same s h = elim (Option-cases (attribute_path s)) [
  | inl x ↦ ground arith
  | inr ((a, r), found) ↦ ground (
    arith,
    enclosed-Agree b'[' b']' n p q same r (omega (arith, length-attribute_path s a r found)),
  )
]

pub length-keyword :
    (op o : Operator) (s r : Text) → keyword op s ≡ some (o, r) → length r ≤ length s
unfolding keyword
length-keyword op o s r h = elim (Option-cases (fold_str (operator_text op) s)) [
  | inl x ↦ ground arith
  | inr (r', found) ↦ ground (arith, length-fold_str (operator_text op) s r' found)
]

pub operand-Agree :
    (op : Operator) (n : ℕ) (p q : Parser Node)
    → Agree n p q
    → Agree (suc n) (operand op p) (operand op q)
unfolding operand keyword
operand-Agree op n p q same s h = elim (Option-cases (space s)) [
  | inl x ↦ ground arith
  | inr (s1, e1) ↦ elim (Option-cases (keyword op s1)) [
    | inl x ↦ ground arith
    | inr ((o, s2), e2) ↦ elim (Option-cases (space s2)) [
      | inl x ↦ ground arith
      | inr (s3, e3) ↦ ground (
        arith,
        same s3 (
            omega
              (arith, length-space s s1 e1, length-keyword op o s1 s2 e2, length-space s2 s3 e3)),
      )
    ]
  ]
]
