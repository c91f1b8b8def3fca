-- ===== src/Filter/Grammar/Groups.antt =====
-- pkg/filter/grammar.go: logExpr and parenGroup read what the printer wrote, when their atom does.
use scim_go.Prelude.{
  ℕ, suc, Text, Bool, true, none, some, [], ◌∷◌, ◌++◌, ◌≡◌, refl, ap, bytes, arith, ◌==◌, nat_eq,
  list_eq, ◌||◌, not,
}
use scim_go.Filter.Operator.{Operator, op_and, op_or, operator_text}
use scim_go.Filter.Scan.{Parser, skip_spaces}
use scim_go.Filter.Node.{Node, conjunction, disjunction, negated}
use scim_go.Filter.Strings.{Strings}
use scim_go.Filter.Grammar.{
  paren_group, enclosed, byte, negate, log_expression, and_expression, operand, binary,
}
use scim_go.Filter.Grammar.Printing.{emit}

-- what may follow an atom
unfoldable pub is_end : Text → Bool
is_end [] = true
is_end (c ∷ t) = c == b' ' || c == b')' || c == b']'

-- what may follow an expression
unfoldable pub is_closed : Text → Bool
is_closed [] = true
is_closed (c ∷ t) = c == b')' || c == b']'

abbrev pub no_space_first : Text → Bool
no_space_first [] = true
no_space_first (c ∷ t) = not (c == b' ')

module _ ⦃S : Strings⦄ where
  -- A parser reads a filter that the printer wrote, whatever follows it.
  abbrev pub Reads : Parser Node → Node → Type 0
  Reads p n = (t : Text) → is_end t ≡ true → p (emit n t) ≡ some (n, t)

  -- The same, when what follows closes an expression.
  abbrev pub ReadsWhole : Parser Node → Node → Type 0
  ReadsWhole p n = (t : Text) → is_closed t ≡ true → p (emit n t) ≡ some (n, t)

  module _ (atom : Parser Node) where
    no_operand :
        (op : Operator) (right : Parser Node) (t : Text)
        → is_closed t ≡ true
        → operand op right t ≡ none
    unfolding operand is_closed
    no_operand op right [] h = refl
    no_operand op right (c ∷ t) h = ground arith

    pub closed_end : (t : Text) → is_closed t ≡ true → is_end t ≡ true
    unfolding is_closed is_end
    closed_end [] h = refl
    closed_end (c ∷ t) h = ground arith

    and_one : (fuel : ℕ) (n : Node) → Reads atom n → ReadsWhole (and_expression atom (suc fuel)) n
    unfolding and_expression
    and_one fuel n reads t h =
        ground (arith, reads t (closed_end t h), no_operand op_and (and_expression atom fuel) t h)

    pub log_one :
        (fuel : ℕ) (fallback : Parser Node) (n : Node)
        → Reads atom n
        → ReadsWhole (log_expression atom (suc fuel) fallback) n
    unfolding log_expression
    log_one fuel fallback n reads t h =
        ground (arith, and_one fuel n reads t h, no_operand op_or fallback t h)

    skip_none : (t : Text) → no_space_first t ≡ true → skip_spaces t ≡ t
    unfolding skip_spaces
    skip_none [] h = refl
    skip_none (c ∷ t) h = ground arith

    and_word :
        (right : Parser Node) (t : Text)
        → no_space_first t ≡ true
        → operand op_and right (bytes " and " ++ t) ≡ right t
    unfolding operand nat_eq operator_text
    and_word right t h = ap right (skip_none t h)

    or_word :
        (right : Parser Node) (t : Text)
        → no_space_first t ≡ true
        → operand op_or right (bytes " or " ++ t) ≡ right t
    unfolding operand nat_eq operator_text
    or_word right t h = ap right (skip_none t h)

    not_and : (right : Parser Node) (t : Text) → operand op_and right (bytes " or " ++ t) ≡ none
    unfolding operand nat_eq operator_text
    not_and right t = refl

    pub log_and :
        (fuel : ℕ) (fallback : Parser Node) (l r : Node)
        → Reads atom l
        → Reads atom r
        → ((t : Text) → no_space_first (emit r t) ≡ true)
        → (t : Text) → is_closed t ≡ true
        → log_expression atom (suc (suc fuel)) fallback (emit l (bytes " and " ++ emit r t))
          ≡ some (conjunction l r, t)
    unfolding log_expression and_expression binary is_end nat_eq
    log_and fuel fallback l r reads_l reads_r begins t h = ground (
      arith,
      reads_l (bytes " and " ++ emit r t) refl,
      and_word (and_expression atom (suc fuel)) (emit r t) (begins t),
      and_one fuel r reads_r t h,
      no_operand op_or fallback t h,
    )

    pub log_or :
        (fuel : ℕ) (fallback : Parser Node) (l r : Node)
        → Reads atom l
        → ReadsWhole fallback r
        → ((t : Text) → no_space_first (emit r t) ≡ true)
        → (t : Text) → is_closed t ≡ true
        → log_expression atom (suc fuel) fallback (emit l (bytes " or " ++ emit r t))
          ≡ some (disjunction l r, t)
    unfolding log_expression and_expression binary is_end nat_eq
    log_or fuel fallback l r reads_l reads_r begins t h = ground (
      arith,
      reads_l (bytes " or " ++ emit r t) refl,
      not_and (and_expression atom fuel) (emit r t),
      or_word fallback (emit r t) (begins t),
      reads_r t h,
    )

  module _ (sub : Parser Node) where
    pub group :
        (s t : Text) (n : Node)
        → sub s ≡ some (n, b')' ∷ t)
        → paren_group sub (b'(' ∷ s) ≡ some (n, t)
    unfolding paren_group enclosed byte
    group s t n h = ground arith

    pub negated_group :
        (s t : Text) (n : Node)
        → sub s ≡ some (n, b')' ∷ t)
        → paren_group sub (bytes "not (" ++ s) ≡ some (negated n, t)
    unfolding paren_group enclosed byte negate
    negated_group s t n h = ground arith
