-- ===== src/Filter/Parse/RoundTrip.antt =====
-- pkg/filter: Parse and Stringify together.
use scim_go.Prelude.{
  ℕ, suc, ◌≤◌, Text, Option, none, some, [], ◌∷◌, ◌≡◌, refl, sym, ap, ◌∙◌, arith, nat_eq, length,
  inl, inr, Bool-cases,
}
use mathlib.Core.List.{append-nil}
use scim_go.Errors.{ok}
use scim_go.Filter.Node.{Node}
use scim_go.Filter.Strings.{Strings}
use scim_go.Filter.Scan.{Parser}
use scim_go.Filter.Grammar.{filter}
use scim_go.Filter.Visitor.{visit, stringify}
use scim_go.Filter.Grammar.Printing.{IsFilter, Printed, emit}
use scim_go.Filter.Grammar.Groups.{is_closed}
use scim_go.Filter.Grammar.Emit.{printed}
use scim_go.Filter.Grammar.Shapes.{filter-Makes}
use scim_go.Filter.Grammar.RoundTrip.{size, size-emit, filter-emit}
use scim_go.Filter.Parse.{exceeds_max, run, run_end, parse_within}

run_end-some :
    {A : Type 0} (text : Text) (o : Option (A × Text)) (a : A)
    → run_end text o ≡ inr a
    → o ≡ some (a, [])
unfolding run_end
run_end-some text none a h = cc
run_end-some text (some (b, [])) a h = cc
run_end-some text (some (b, c ∷ rest)) a h = cc

run-some :
    {A : Type 0} (max_input : ℕ) (p : Parser A) (text : Text) (a : A)
    → run max_input p text ≡ inr a
    → p text ≡ some (a, [])
unfolding run run_end
run-some max_input p text a h = elim (Bool-cases (exceeds_max max_input text)) [
  | inl y ↦ absurd (ground arith)
  | inr x ↦ run_end-some text (p text) a (ground arith)
]

module _ ⦃S : Strings⦄ where
  parsed_shape :
      (max_input : ℕ) (text : Text) (n : Node) → parse_within max_input text ≡ inr n → IsFilter n
  unfolding parse_within
  parsed_shape max_input text n h =
      filter-Makes (suc (length text)) text [] n
        (run-some max_input (filter (suc (length text))) text n h)

  read_again : (s : Text) (n : Node) → IsFilter n → emit n [] ≡ s → parse_within 0 s ≡ inr n
  unfolding parse_within run_end is_closed
  read_again s n shape same =
      let fuel : size n ≤ length s = omega (arith, size-emit n [], ap length same) in
      ap (run_end s)
        (ap (filter (suc (length s))) (sym same) ∙ filter-emit (length s) n shape fuel [] refl)

  -- What the grammar reads, the printer prints, and the grammar reads the print as the same filter.
  pub parse-stringify :
      (max_input : ℕ) (text : Text) (n : Node)
      → parse_within max_input text ≡ inr n
      → (s : Text) × (visit stringify tt n ≡ ok s) × (parse_within 0 s ≡ inr n)
  unfolding Printed
  parse-stringify max_input text n h =
      let shape = parsed_shape max_input text n h in
      let (s, made) = printed n shape in
      let same : emit n [] ≡ s = made.1 [] ∙ append-nil s in (s, made.0, read_again s n shape same)
