-- ===== src/Filter/Grammar/Emit.antt =====
-- pkg/filter/stringify.go: the printer writes every filter of the grammar.
use scim_go.Prelude.{Text, true, ◌∷◌, ◌++◌, ◌≡◌, refl, sym, ap, ◌∙◌, bytes, arith}
use mathlib.Core.List.{append_assoc}
use scim_go.Errors.{ok}
use scim_go.Core.Value.{Value}
use scim_go.Filter.Operator.{Operator, op_present, op_and, op_or, op_unset, operator_text}
use scim_go.Filter.Path.{split_attr_path}
use scim_go.Filter.Path.Printing.{path_text-split}
use scim_go.Filter.Scan.Paths.{IsAttribute}
use scim_go.Filter.Node.{Node, compared, present, conjunction, disjunction, negated, value_path}
use scim_go.Filter.Strings.{Strings}
use scim_go.Filter.Visitor.{visit, stringify, stringify_value, dispatch_comparison}
use scim_go.Filter.Grammar.Printing.{is_comparison, IsFilter, IsValueFilter-IsFilter, emit, Printed}

module _ ⦃S : Strings⦄ where
  dispatched :
      (a : Text) (op : Operator) (v : Value)
      → is_comparison op ≡ true
      → dispatch_comparison stringify tt a op v
        ≡ stringify.visit_comparison tt op (split_attr_path a) v
  unfolding dispatch_comparison is_comparison
  dispatched a op_present v h = cc
  dispatched a op_and v h = cc
  dispatched a op_or v h = cc
  dispatched a op_unset v h = cc
  dispatched a _ v h = refl

  Printed-comparison :
      (a : Text) (op : Operator) (v : Value)
      → IsAttribute a
      → is_comparison op ≡ true
      → (s : Text) × Printed (compared a op v) s
  unfolding Printed visit stringify emit
  Printed-comparison a op v h k =
      let o = operator_text op in
      let w = stringify_value v in
      (
        a ++ b' ' ∷ (o ++ b' ' ∷ w),
        (
          dispatched a op v k ∙ ap (λ p. ok (p ++ b' ' ∷ (o ++ b' ' ∷ w))) (path_text-split a h),
          λ t. sym (
              append_assoc a (b' ' ∷ (o ++ b' ' ∷ w)) t
              ∙ ap (λ x. a ++ b' ' ∷ x) (append_assoc o (b' ' ∷ w) t)),
        ),
      )

  pub printed : (n : Node) → IsFilter n → (s : Text) × Printed n s
  unfolding Printed IsFilter visit stringify emit
  printed (compared a op v) (h, k, l) = Printed-comparison a op v h k
  printed (present a) h = (
    a ++ bytes " pr",
    (
      ap (λ p. ok (p ++ bytes " pr")) (path_text-split a h),
      λ t. sym (append_assoc a (bytes " pr") t),
    ),
  )
  printed (conjunction l r) (h, k) =
      let (s, hs) = printed l h in
      let (s', hs') = printed r k in
      (
        bytes "(" ++ (s ++ (bytes " and " ++ (s' ++ bytes ")"))),
        (
          rw (hs.0, hs'.0) refl,
          λ t. ground (
            arith,
            hs.1 (bytes " and " ++ emit r (b')' ∷ t)),
            hs'.1 (b')' ∷ t),
            append_assoc s (bytes " and " ++ (s' ++ bytes ")")) t,
            append_assoc s' (bytes ")") t,
          ),
        ),
      )
  printed (disjunction l r) (h, k) =
      let (s, hs) = printed l h in
      let (s', hs') = printed r k in
      (
        bytes "(" ++ (s ++ (bytes " or " ++ (s' ++ bytes ")"))),
        (
          rw (hs.0, hs'.0) refl,
          λ t. ground (
            arith,
            hs.1 (bytes " or " ++ emit r (b')' ∷ t)),
            hs'.1 (b')' ∷ t),
            append_assoc s (bytes " or " ++ (s' ++ bytes ")")) t,
            append_assoc s' (bytes ")") t,
          ),
        ),
      )
  printed (negated n) h =
      let (s, hs) = printed n h in
      (
        bytes "not (" ++ (s ++ bytes ")"),
        (rw hs.0 refl, λ t. ground (arith, hs.1 (b')' ∷ t), append_assoc s (bytes ")") t)),
      )
  printed (value_path path f) (h, k) =
      let (s, hs) = printed f (IsValueFilter-IsFilter f k) in
      (
        path ++ (bytes "[" ++ (s ++ bytes "]")),
        (
          rw hs.0 (ap (λ p. ok (p ++ (bytes "[" ++ (s ++ bytes "]")))) (path_text-split path h)),
          λ t. ground (
            arith,
            hs.1 (b']' ∷ t),
            append_assoc path (bytes "[" ++ (s ++ bytes "]")) t,
            append_assoc s (bytes "]") t,
          ),
        ),
      )
