-- ===== src/Filter/Grammar/Printing.antt =====
-- pkg/filter/grammar.go and stringify.go: the syntax trees that the grammar makes, and a filter as
-- the printer writes it, in front of another text.
use scim_go.Prelude.{Text, Bool, true, false, ◌∷◌, ◌++◌, ◌≡◌}
use scim_go.Errors.{ok}
use scim_go.Core.Value.{Value, null, text, boolean, number}
use scim_go.Filter.Operator.{Operator, op_present, op_and, op_or, op_unset, operator_text}
use scim_go.Filter.Scan.Paths.{IsAttribute}
use scim_go.Filter.Scan.Numbers.{IsNumber}
use scim_go.Filter.Node.{Node, compared, present, conjunction, disjunction, negated, value_path}
use scim_go.Filter.Strings.{Strings}
use scim_go.Filter.Visitor.{visit, stringify, stringify_value}

-- the operators of comparisonOperator
unfoldable pub is_comparison : Operator → Bool
is_comparison op_present = false
is_comparison op_and = false
is_comparison op_or = false
is_comparison op_unset = false
is_comparison _ = true

module _ ⦃S : Strings⦄ where
  -- the values of comparisonValue
  unfoldable pub IsLiteral : Value → Type 0
  IsLiteral (text s) = S.is_valid s ≡ true
  IsLiteral (number w) = IsNumber w
  IsLiteral (boolean b) = Unit {0}
  IsLiteral null = Unit {0}
  IsLiteral _ = ⊥

  -- what grammar.valueFilter makes
  unfoldable pub IsValueFilter : Node → Type 0
  unfolding IsLiteral is_comparison
  IsValueFilter (compared a op v) = IsAttribute a × (is_comparison op ≡ true) × IsLiteral v
  IsValueFilter (present a) = IsAttribute a
  IsValueFilter (conjunction l r) = IsValueFilter l × IsValueFilter r
  IsValueFilter (disjunction l r) = IsValueFilter l × IsValueFilter r
  IsValueFilter (negated n) = IsValueFilter n
  IsValueFilter (value_path path f) = ⊥

  -- what grammar.filter makes
  unfoldable pub IsFilter : Node → Type 0
  unfolding IsValueFilter
  IsFilter (compared a op v) = IsAttribute a × (is_comparison op ≡ true) × IsLiteral v
  IsFilter (present a) = IsAttribute a
  IsFilter (conjunction l r) = IsFilter l × IsFilter r
  IsFilter (disjunction l r) = IsFilter l × IsFilter r
  IsFilter (negated n) = IsFilter n
  IsFilter (value_path path f) = IsAttribute path × IsValueFilter f

  unfoldable pub emit : Node → Text → Text
  unfolding stringify_value
  emit (compared a op v) t = a ++ b' ' ∷ (operator_text op ++ b' ' ∷ (stringify_value v ++ t))
  emit (present a) t = a ++ b' ' ∷ b'p' ∷ b'r' ∷ t
  emit (conjunction l r) t = b'(' ∷ emit l (b' ' ∷ b'a' ∷ b'n' ∷ b'd' ∷ b' ' ∷ emit r (b')' ∷ t))
  emit (disjunction l r) t = b'(' ∷ emit l (b' ' ∷ b'o' ∷ b'r' ∷ b' ' ∷ emit r (b')' ∷ t))
  emit (negated n) t = b'n' ∷ b'o' ∷ b't' ∷ b' ' ∷ b'(' ∷ emit n (b')' ∷ t)
  emit (value_path path f) t = path ++ b'[' ∷ emit f (b']' ∷ t)

  pub IsValueFilter-IsFilter : (n : Node) → IsValueFilter n → IsFilter n
  unfolding IsFilter
  IsValueFilter-IsFilter (compared a op v) h = h
  IsValueFilter-IsFilter (present a) h = h
  IsValueFilter-IsFilter (conjunction l r) (h, k) =
      (IsValueFilter-IsFilter l h, IsValueFilter-IsFilter r k)
  IsValueFilter-IsFilter (disjunction l r) (h, k) =
      (IsValueFilter-IsFilter l h, IsValueFilter-IsFilter r k)
  IsValueFilter-IsFilter (negated n) h = IsValueFilter-IsFilter n h
  IsValueFilter-IsFilter (value_path path f) h = absurd h

  -- What a filter is printed as, and that `emit` writes it in front of a text.
  unfoldable pub Printed : Node → Text → Type 0
  Printed n s = (visit stringify tt n ≡ ok s) × ((t : Text) → emit n t ≡ s ++ t)
