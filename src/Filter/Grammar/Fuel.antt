-- ===== src/Filter/Grammar/Fuel.antt =====
-- pkg/filter/grammar.go: the fuel of the grammar is enough.
use scim_go.Prelude.{
  ℕ, zero, suc, ◌<◌, ◌≤◌, Text, Option, none, some, [], ◌∷◌, ◌≡◌, refl, ap, ◌∙◌, arith, inl, inr,
  Option-cases, length,
}
use scim_go.Filter.Operator.{Operator, op_and, op_or}
use scim_go.Filter.Scan.{Parser}
use scim_go.Filter.Node.{Node}
use scim_go.Filter.Strings.{Strings}
use scim_go.Filter.Grammar.{
  paren_group, value_path_of, operand, and_expression, log_expression, value_atom, filter_atom,
  value_filter, filter,
}
use scim_go.Filter.Grammar.Agreement.{Agree, paren_group-Agree, value_path_of-Agree, operand-Agree}
use scim_go.Filter.Grammar.Shrinking.{NoLonger, and_expression-NoLonger}
use scim_go.Filter.Grammar.Bounded.{
  value_atom-NoLonger, filter_atom-NoLonger, value_filter-NoLonger, filter-NoLonger,
}

-- An operand does not begin on an empty text.
operand_nil : (op : Operator) (p : Parser Node) (s : Text) → length s ≤ 0 → operand op p s ≡ none
unfolding operand
operand_nil op p [] h = refl
operand_nil op p (c ∷ s) h = absurd (omega arith)

Agree-less : (n : ℕ) (p q : Parser Node) → Agree (suc n) p q → Agree n p q
Agree-less n p q same s h = same s (omega arith)

-- Fuel above the length of the text gives one result.
and_expression-Agree :
    (n : ℕ) (p q : Parser Node) (f g : ℕ)
    → NoLonger p
    → Agree n p q
    → n < f
    → n < g
    → Agree n (and_expression p f) (and_expression q g)
unfolding and_expression
and_expression-Agree n p q zero g bound same h k s b = absurd (omega arith)
and_expression-Agree n p q (suc f) zero bound same h k s b = absurd (omega arith)
and_expression-Agree zero p q (suc f) (suc g) bound same h k s b = elim (Option-cases (p s)) [
  | inl x ↦ ground (arith, same s b)
  | inr ((l, s1), e1) ↦
      let short : length s1 ≤ 0 = omega (arith, bound s s1 l e1) in
      ground (
        arith,
        same s b,
        operand_nil op_and (and_expression p f) s1 short,
        operand_nil op_and (and_expression q g) s1 short,
      )
]
and_expression-Agree (suc n) p q (suc f) (suc g) bound same h k s b = elim (Option-cases (p s)) [
  | inl x ↦ ground (arith, same s b)
  | inr ((l, s1), e1) ↦
      let rest =
        and_expression-Agree n p q f g bound (Agree-less n p q same) (omega arith) (omega arith) in
      ground (
        arith,
        same s b,
        operand-Agree op_and n (and_expression p f) (and_expression q g) rest s1
            (omega (arith, bound s s1 l e1)),
      )
]

log_expression-Agree :
    (n : ℕ) (p q : Parser Node) (f g : ℕ) (p' q' : Parser Node)
    → NoLonger p
    → Agree (suc n) p q
    → suc n < f
    → suc n < g
    → Agree n p' q'
    → Agree (suc n) (log_expression p f p') (log_expression q g q')
unfolding log_expression
log_expression-Agree n p q f g p' q' bound same h k rest s b =
    elim (Option-cases (and_expression p f s)) [
      | inl x ↦ ground (arith, and_expression-Agree (suc n) p q f g bound same h k s b)
      | inr ((l, s1), e1) ↦ ground (
        arith,
        and_expression-Agree (suc n) p q f g bound same h k s b,
        operand-Agree op_or n p' q' rest s1
            (omega (arith, and_expression-NoLonger p f bound s s1 l e1)),
      )
    ]

log_expression-Agree_nil :
    (p q : Parser Node) (f g : ℕ) (p' q' : Parser Node)
    → NoLonger p
    → Agree 0 p q
    → 0 < f
    → 0 < g
    → Agree 0 (log_expression p f p') (log_expression q g q')
unfolding log_expression
log_expression-Agree_nil p q f g p' q' bound same h k s b =
    elim (Option-cases (and_expression p f s)) [
      | inl x ↦ ground (arith, and_expression-Agree 0 p q f g bound same h k s b)
      | inr ((l, s1), e1) ↦
          let short : length s1 ≤ 0 =
            omega (arith, and_expression-NoLonger p f bound s s1 l e1, b) in
          ground (
            arith,
            and_expression-Agree 0 p q f g bound same h k s b,
            operand_nil op_or p' s1 short,
            operand_nil op_or q' s1 short,
          )
    ]

paren_group_nil : (p : Parser Node) (s : Text) → length s ≤ 0 → paren_group p s ≡ none
unfolding paren_group
paren_group_nil p [] h = refl
paren_group_nil p (c ∷ s) h = absurd (omega arith)

value_path_of_nil : (p : Parser Node) (s : Text) → length s ≤ 0 → value_path_of p s ≡ none
unfolding value_path_of
value_path_of_nil p [] h = refl
value_path_of_nil p (c ∷ s) h = absurd (omega arith)

choice_same :
    {o o' x x' : Option (Node × Text)}
    → o ≡ o'
    → x ≡ x'
    → (elim o [ none ↦ x | some r ↦ some r ]) ≡ (elim o' [ none ↦ x' | some r ↦ some r ])
choice_same {o' = o'} {x = x} e e' =
    ap (λ y. elim y [ none ↦ x | some r ↦ some r ]) e
    ∙ ap (λ y. elim o' [ none ↦ y | some r ↦ some r ]) e'

module _ ⦃S : Strings⦄ where
  value_atom-Agree :
      (n : ℕ) (p q : Parser Node) → Agree n p q → Agree (suc n) (value_atom p) (value_atom q)
  unfolding value_atom
  value_atom-Agree n p q same s b = ground (arith, paren_group-Agree n p q same s b)

  value_atom-Agree_nil : (p q : Parser Node) → Agree 0 (value_atom p) (value_atom q)
  unfolding value_atom
  value_atom-Agree_nil p q s b = ground (arith, paren_group_nil p s b, paren_group_nil q s b)

  filter_atom-Agree :
      (n : ℕ) (p q p' q' : Parser Node)
      → Agree n p q
      → Agree n p' q'
      → Agree (suc n) (filter_atom p p') (filter_atom q q')
  unfolding filter_atom
  filter_atom-Agree n p q p' q' same same' s b =
      choice_same (value_atom-Agree n p q same s b) (value_path_of-Agree n p' q' same' s b)

  filter_atom-Agree_nil : (p q p' q' : Parser Node) → Agree 0 (filter_atom p p') (filter_atom q q')
  unfolding filter_atom
  filter_atom-Agree_nil p q p' q' s b =
      ground
        (arith, value_atom-Agree_nil p q s b, value_path_of_nil p' s b, value_path_of_nil q' s b)

  value_filter-Agree : (n f g : ℕ) → n < f → n < g → Agree n (value_filter f) (value_filter g)
  unfolding value_filter
  value_filter-Agree n zero g h k = absurd (omega arith)
  value_filter-Agree n (suc f) zero h k = absurd (omega arith)
  value_filter-Agree zero (suc f) (suc g) h k =
      log_expression-Agree_nil (value_atom (value_filter f)) (value_atom (value_filter g)) (suc f)
        (suc g) (value_filter f) (value_filter g)
        (value_atom-NoLonger (value_filter f) (value_filter-NoLonger f))
        (value_atom-Agree_nil (value_filter f) (value_filter g)) h k
  value_filter-Agree (suc n) (suc f) (suc g) h k =
      let rest = value_filter-Agree n f g (omega arith) (omega arith) in
      log_expression-Agree n (value_atom (value_filter f)) (value_atom (value_filter g)) (suc f)
        (suc g) (value_filter f) (value_filter g)
        (value_atom-NoLonger (value_filter f) (value_filter-NoLonger f))
        (value_atom-Agree n (value_filter f) (value_filter g) rest) h k rest

  filter-Agree : (n f g : ℕ) → n < f → n < g → Agree n (filter f) (filter g)
  unfolding filter
  filter-Agree n zero g h k = absurd (omega arith)
  filter-Agree n (suc f) zero h k = absurd (omega arith)
  filter-Agree zero (suc f) (suc g) h k =
      log_expression-Agree_nil (filter_atom (filter f) (value_filter f))
        (filter_atom (filter g) (value_filter g)) (suc f) (suc g) (filter f) (filter g)
        (filter_atom-NoLonger (filter f) (value_filter f) (filter-NoLonger f)
          (value_filter-NoLonger f))
        (filter_atom-Agree_nil (filter f) (filter g) (value_filter f) (value_filter g)) h k
  filter-Agree (suc n) (suc f) (suc g) h k =
      let rest = filter-Agree n f g (omega arith) (omega arith) in
      let inner = value_filter-Agree n f g (omega arith) (omega arith) in
      log_expression-Agree n (filter_atom (filter f) (value_filter f))
        (filter_atom (filter g) (value_filter g)) (suc f) (suc g) (filter f) (filter g)
        (filter_atom-NoLonger (filter f) (value_filter f) (filter-NoLonger f)
          (value_filter-NoLonger f))
        (filter_atom-Agree n (filter f) (filter g) (value_filter f) (value_filter g) rest inner) h k
        rest

  -- The grammar's fuel is enough: a text shorter than the fuel is read as if nothing bounded the
  -- recursion, by the equation of the source, in which the grammar calls itself with the same fuel.
  pub filter_fuel :
      (fuel : ℕ) (s : Text)
      → length s < fuel
      → (filter fuel s ≡ filter (suc (length s)) s)
        × (filter fuel s
            ≡ log_expression
                (filter_atom (filter fuel) (value_filter fuel))
                (suc fuel)
                (filter fuel)
                s)
  unfolding filter
  filter_fuel fuel s h = (
    filter-Agree (length s) fuel (suc (length s)) h (omega arith) s (omega arith),
    filter-Agree (length s) fuel (suc fuel) h (omega arith) s (omega arith),
  )
