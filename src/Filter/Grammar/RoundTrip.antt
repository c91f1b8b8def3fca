-- ===== src/Filter/Grammar/RoundTrip.antt =====
-- pkg/filter: Stringify and the grammar together.
use scim_go.Prelude.{
  ℕ, zero, suc, ◌+◌, ◌≤◌, Text, some, ◌∷◌, ◌++◌, ◌≡◌, refl, ◌∙◌, arith, nat_eq, bytes, length,
  length-append,
}
use scim_go.Filter.Scan.{Parser}
use scim_go.Filter.Node.{Node, compared, present, conjunction, disjunction, negated, value_path}
use scim_go.Filter.Operator.{operator_text}
use scim_go.Filter.Visitor.{stringify_value}
use scim_go.Filter.Strings.{Strings}
use scim_go.Filter.Grammar.{log_expression, value_atom, filter_atom, value_filter, filter}
use scim_go.Filter.Grammar.Printing.{IsFilter, IsValueFilter, IsValueFilter-IsFilter, emit}
use scim_go.Filter.Grammar.Groups.{
  is_closed, Reads, ReadsWhole, log_one, log_and, log_or, group, negated_group,
}
use scim_go.Filter.Grammar.Atoms.{
  Reads-present, Reads-compared, Reads-value_path, Reads-filter_atom, emit_first,
}

-- a bound of the fuel that a printed filter takes
pub size : Node → ℕ
size (conjunction l r) = suc (size l + size r)
size (disjunction l r) = suc (size l + size r)
size (negated n) = suc (size n)
size (value_path path f) = suc (size f)
size _ = 1

size_positive : (n : Node) → 1 ≤ size n
unfolding size
size_positive (conjunction l r) = omega arith
size_positive (disjunction l r) = omega arith
size_positive (negated n) = omega arith
size_positive (value_path path f) = omega arith
size_positive (compared a op v) = omega arith
size_positive (present a) = omega arith

module _ ⦃S : Strings⦄ where
  -- A group is an atom at both levels: what stands between the parentheses is an expression.
  group_atom :
      (sub : Parser Node) (s t : Text) (n : Node)
      → sub s ≡ some (n, b')' ∷ t)
      → value_atom sub (b'(' ∷ s) ≡ some (n, t)
  unfolding value_atom
  group_atom sub s t n h = ground (arith, group sub s t n h)

  negated_atom :
      (sub : Parser Node) (s t : Text) (n : Node)
      → sub s ≡ some (n, b')' ∷ t)
      → value_atom sub (bytes "not (" ++ s) ≡ some (negated n, t)
  unfolding value_atom
  negated_atom sub s t n h = ground (arith, negated_group sub s t n h)

  module _ (atom : ℕ → Parser Node) (expression : ℕ → Parser Node)
      (step : (fuel : ℕ) (s : Text)
        → expression (suc fuel) s ≡ log_expression (atom fuel) (suc fuel) (expression fuel) s) where
    Reads-one : (fuel : ℕ) (n : Node) → Reads (atom fuel) n → ReadsWhole (expression (suc fuel)) n
    Reads-one fuel n reads t h =
        step fuel (emit n t) ∙ log_one (atom fuel) fuel (expression fuel) n reads t h

    conjunction_atom :
        (fuel : ℕ) (l r : Node)
        → IsFilter r
        → Reads (atom (suc fuel)) l
        → Reads (atom (suc fuel)) r
        → Reads (value_atom (expression (suc (suc fuel)))) (conjunction l r)
    unfolding emit is_closed nat_eq
    conjunction_atom fuel l r shape reads_l reads_r t h =
        group_atom (expression (suc (suc fuel))) (emit l (bytes " and " ++ emit r (b')' ∷ t))) t
          (conjunction l r)
          (step (suc fuel) (emit l (bytes " and " ++ emit r (b')' ∷ t)))
            ∙ log_and (atom (suc fuel)) fuel (expression (suc fuel)) l r reads_l reads_r
                (λ x. emit_first r x shape) (b')' ∷ t) refl)

    disjunction_atom :
        (fuel : ℕ) (l r : Node)
        → IsFilter r
        → Reads (atom (suc fuel)) l
        → Reads (atom fuel) r
        → Reads (value_atom (expression (suc (suc fuel)))) (disjunction l r)
    unfolding emit is_closed nat_eq
    disjunction_atom fuel l r shape reads_l reads_r t h =
        group_atom (expression (suc (suc fuel))) (emit l (bytes " or " ++ emit r (b')' ∷ t))) t
          (disjunction l r)
          (step (suc fuel) (emit l (bytes " or " ++ emit r (b')' ∷ t)))
            ∙ log_or (atom (suc fuel)) (suc fuel) (expression (suc fuel)) l r reads_l
                (Reads-one fuel r reads_r) (λ x. emit_first r x shape) (b')' ∷ t) refl)

    negated-Reads :
        (fuel : ℕ) (n : Node)
        → Reads (atom fuel) n
        → Reads (value_atom (expression (suc fuel))) (negated n)
    unfolding emit is_closed nat_eq
    negated-Reads fuel n reads t h =
        negated_atom (expression (suc fuel)) (emit n (b')' ∷ t)) t n
          (Reads-one fuel n reads (b')' ∷ t) refl)

  value_step :
      (fuel : ℕ) (s : Text)
      → value_filter (suc fuel) s
        ≡ log_expression (value_atom (value_filter fuel)) (suc fuel) (value_filter fuel) s
  unfolding value_filter
  value_step fuel s = refl

  filter_step :
      (fuel : ℕ) (s : Text)
      → filter (suc fuel) s
        ≡ log_expression (filter_atom (filter fuel) (value_filter fuel)) (suc fuel) (filter fuel) s
  unfolding filter
  filter_step fuel s = refl

  value-Reads :
      (fuel : ℕ) (n : Node)
      → IsValueFilter n
      → size n ≤ fuel
      → Reads (value_atom (value_filter fuel)) n
  unfolding IsValueFilter size
  value-Reads fuel (compared a op v) (h, k, l) b = Reads-compared (value_filter fuel) a op v h k l
  value-Reads fuel (present a) h b = Reads-present (value_filter fuel) a h
  value-Reads (suc (suc fuel)) (conjunction l r) (h, k) b =
      conjunction_atom (λ f. value_atom (value_filter f)) value_filter value_step fuel l r
        (IsValueFilter-IsFilter r k) (value-Reads (suc fuel) l h (omega (arith, size_positive r)))
        (value-Reads (suc fuel) r k (omega (arith, size_positive l)))
  value-Reads (suc (suc fuel)) (disjunction l r) (h, k) b =
      disjunction_atom (λ f. value_atom (value_filter f)) value_filter value_step fuel l r
        (IsValueFilter-IsFilter r k) (value-Reads (suc fuel) l h (omega (arith, size_positive r)))
        (value-Reads fuel r k (omega (arith, size_positive l)))
  value-Reads (suc fuel) (negated n) h b =
      negated-Reads (λ f. value_atom (value_filter f)) value_filter value_step fuel n
        (value-Reads fuel n h (omega arith))
  value-Reads fuel (value_path path f) h b = absurd h
  value-Reads zero (negated n) h b = absurd (omega arith)
  value-Reads zero (conjunction l r) h b = absurd (omega arith)
  value-Reads (suc zero) (conjunction l r) h b = absurd (omega (arith, size_positive l))
  value-Reads zero (disjunction l r) h b = absurd (omega arith)
  value-Reads (suc zero) (disjunction l r) h b = absurd (omega (arith, size_positive l))

  filter-Reads :
      (fuel : ℕ) (n : Node)
      → IsFilter n
      → size n ≤ fuel
      → Reads (filter_atom (filter fuel) (value_filter fuel)) n
  unfolding IsFilter size
  filter-Reads fuel (compared a op v) (h, k, l) b =
      Reads-filter_atom (filter fuel) (value_filter fuel) (compared a op v)
        (Reads-compared (filter fuel) a op v h k l)
  filter-Reads fuel (present a) h b =
      Reads-filter_atom (filter fuel) (value_filter fuel) (present a)
        (Reads-present (filter fuel) a h)
  filter-Reads (suc (suc fuel)) (conjunction l r) (h, k) b =
      Reads-filter_atom (filter (suc (suc fuel))) (value_filter (suc (suc fuel))) (conjunction l r)
        (conjunction_atom (λ f. filter_atom (filter f) (value_filter f)) filter filter_step fuel l r
          k (filter-Reads (suc fuel) l h (omega (arith, size_positive r)))
          (filter-Reads (suc fuel) r k (omega (arith, size_positive l))))
  filter-Reads (suc (suc fuel)) (disjunction l r) (h, k) b =
      Reads-filter_atom (filter (suc (suc fuel))) (value_filter (suc (suc fuel))) (disjunction l r)
        (disjunction_atom (λ f. filter_atom (filter f) (value_filter f)) filter filter_step fuel l r
          k (filter-Reads (suc fuel) l h (omega (arith, size_positive r)))
          (filter-Reads fuel r k (omega (arith, size_positive l))))
  filter-Reads (suc fuel) (negated n) h b =
      Reads-filter_atom (filter (suc fuel)) (value_filter (suc fuel)) (negated n) (
        negated-Reads (λ f. filter_atom (filter f) (value_filter f)) filter filter_step fuel n
          (filter-Reads fuel n h (omega arith)))
  filter-Reads (suc fuel) (value_path path f) (h, k) b =
      Reads-value_path (filter (suc fuel)) (value_filter (suc fuel)) path f h (
        Reads-one (λ f. value_atom (value_filter f)) value_filter value_step fuel f
          (value-Reads fuel f k (omega arith)))
  filter-Reads zero (value_path path f) h b = absurd (omega arith)
  filter-Reads zero (negated n) h b = absurd (omega arith)
  filter-Reads zero (conjunction l r) h b = absurd (omega arith)
  filter-Reads (suc zero) (conjunction l r) h b = absurd (omega (arith, size_positive l))
  filter-Reads zero (disjunction l r) h b = absurd (omega arith)
  filter-Reads (suc zero) (disjunction l r) h b = absurd (omega (arith, size_positive l))

  -- The grammar reads a filter that the printer wrote, with fuel for its size.
  pub filter-emit :
      (fuel : ℕ) (n : Node) → IsFilter n → size n ≤ fuel → ReadsWhole (filter (suc fuel)) n
  filter-emit fuel n shape b =
      Reads-one (λ f. filter_atom (filter f) (value_filter f)) filter filter_step fuel n
        (filter-Reads fuel n shape b)

  pub size-emit : (n : Node) (t : Text) → size n + length t ≤ length (emit n t)
  unfolding size emit
  size-emit (compared a op v) t = omega (
    arith,
    length-append a (b' ' ∷ (operator_text op ++ b' ' ∷ (stringify_value v ++ t))),
    length-append (operator_text op) (b' ' ∷ (stringify_value v ++ t)),
    length-append (stringify_value v) t,
  )
  size-emit (present a) t = omega (arith, length-append a (b' ' ∷ b'p' ∷ b'r' ∷ t))
  size-emit (conjunction l r) t =
      omega (arith, size-emit l (bytes " and " ++ emit r (b')' ∷ t)), size-emit r (b')' ∷ t))
  size-emit (disjunction l r) t =
      omega (arith, size-emit l (bytes " or " ++ emit r (b')' ∷ t)), size-emit r (b')' ∷ t))
  size-emit (negated n) t = omega (arith, size-emit n (b')' ∷ t))
  size-emit (value_path path f) t =
      omega (arith, length-append path (b'[' ∷ emit f (b']' ∷ t)), size-emit f (b']' ∷ t))
