-- ===== src/Filter/Grammar/Atoms.antt =====
-- pkg/filter/grammar.go: attributeExpression and valuePath read what the printer wrote.
use scim_go.Prelude.{
  ℕ, Text, true, false, none, some, [], ◌∷◌, ◌++◌, ◌≡◌, refl, sym, ap, ◌∙◌, arith, ◌==◌, nat_eq,
  list_eq, ◌||◌, not, all,
}
use scim_go.Core.Value.{Value, null, text, boolean, number}
use scim_go.Filter.Operator.{Operator, op_present, op_and, op_or, op_unset, operator_text}
use scim_go.Filter.Scan.{Parser, space, attribute_path, is_digit, is_name_char, is_uri_char}
use scim_go.Filter.Scan.Names.{ends, is_path_char}
use scim_go.Filter.Scan.Paths.{IsAttribute, attribute_path-append}
use scim_go.Filter.Scan.Digits.{is_number_char}
use scim_go.Filter.Scan.Numbers.{number_begins}
use scim_go.Filter.Node.{Node, compared, present, conjunction, disjunction, negated, value_path}
use scim_go.Filter.Strings.{Strings}
use scim_go.Filter.Visitor.{stringify_value}
use scim_go.Filter.Grammar.{
  enclosed, byte, keyword, comparison_operator, attribute_expression, value_atom, filter_atom,
  value_path_of, with_path, optional_space,
}
use scim_go.Filter.Grammar.Printing.{is_comparison, IsLiteral, IsFilter, emit}
use scim_go.Filter.Grammar.Literals.{comparison_value-stringify, string_begins}
use scim_go.Filter.Grammar.Attributes.{
  paren_group-none, attribute_chars, attribute_begins, path_char_lem,
}
use scim_go.Filter.Grammar.Groups.{is_end, is_closed, no_space_first, Reads, ReadsWhole}

first_of :
    (c : ℕ) (y x : Text)
    → all is_path_char (c ∷ y) ≡ true
    → (not (c == b' ') ≡ true) × (((c ∷ y) == []) ≡ false)
first_of c y x h = ground (arith, path_char_lem c)

digit_first : (c : ℕ) → (is_digit c || c == b'-') ≡ true → not (c == b' ') ≡ true
digit_first c h = ground arith

attribute_first :
    (a x : Text) → IsAttribute a → (no_space_first (a ++ x) ≡ true) × ((a == []) ≡ false)
attribute_first a x h =
    let (c, y, begins) = attribute_begins a h in
    rw begins (first_of c y x (ap (all is_path_char) (sym begins) ∙ attribute_chars a h))

module _ ⦃S : Strings⦄ where
  literal_first :
      (v : Value) (t : Text) → IsLiteral v → no_space_first (stringify_value v ++ t) ≡ true
  unfolding IsLiteral stringify_value nat_eq
  literal_first null t h = refl
  literal_first (boolean true) t h = refl
  literal_first (boolean false) t h = refl
  literal_first (text s) t h =
      let (y, begins) = string_begins (S.marshal s) (S.marshal s) [] (S.marshal_string s) in
      rw begins refl
  literal_first (number w) t h =
      let (c, y, d, begins) = number_begins w h in rw begins (digit_first c d)
  literal_first _ t h = absurd h

  operator_read :
      (op : Operator) (x : Text)
      → is_comparison op ≡ true
      → comparison_operator (operator_text op ++ b' ' ∷ x) ≡ some (op, b' ' ∷ x)
  unfolding comparison_operator operator_text is_comparison nat_eq
  operator_read op_present x h = cc
  operator_read op_and x h = cc
  operator_read op_or x h = cc
  operator_read op_unset x h = cc
  operator_read _ x h = refl

  -- no operator begins with "pr" or with a space
  operator_first :
      (op : Operator) (x : Text)
      → is_comparison op ≡ true
      → (keyword op_present (operator_text op ++ b' ' ∷ x) ≡ none)
        × (space (b' ' ∷ (operator_text op ++ b' ' ∷ x)) ≡ some (operator_text op ++ b' ' ∷ x))
        × (ends (λ d. d == b'(') (optional_space (b' ' ∷ (operator_text op ++ b' ' ∷ x))) ≡ true)
  unfolding keyword space operator_text is_comparison nat_eq
  operator_first op_present x h = cc
  operator_first op_and x h = cc
  operator_first op_or x h = cc
  operator_first op_unset x h = cc
  operator_first _ x h = (refl, refl, refl)

  end_number : (t : Text) → is_end t ≡ true → ends is_number_char t ≡ true
  unfolding is_end is_number_char
  end_number [] h = refl
  end_number (c ∷ t) h = ground arith

  spaced : (t : Text) → no_space_first t ≡ true → space (b' ' ∷ t) ≡ some t
  unfolding space nat_eq
  spaced [] h = refl
  spaced (c ∷ t) h = ground arith

  after_attribute :
      (a x : Text) → IsAttribute a → attribute_path (a ++ b' ' ∷ x) ≡ some (a, b' ' ∷ x)
  unfolding is_path_char is_name_char is_uri_char nat_eq
  after_attribute a x h = attribute_path-append a (b' ' ∷ x) h refl

  pub Reads-present :
      (sub : Parser Node) (a : Text) → IsAttribute a → Reads (value_atom sub) (present a)
  unfolding value_atom attribute_expression emit nat_eq operator_text
  Reads-present sub a h t e = ground (
    arith,
    paren_group-none sub a b' ' (b'p' ∷ b'r' ∷ t) (attribute_chars a h) (attribute_first a [] h).1
        refl refl,
    after_attribute a (b'p' ∷ b'r' ∷ t) h,
  )

  pub Reads-compared :
      (sub : Parser Node) (a : Text) (op : Operator) (v : Value)
      → IsAttribute a
      → is_comparison op ≡ true
      → IsLiteral v
      → Reads (value_atom sub) (compared a op v)
  unfolding value_atom attribute_expression emit nat_eq
  Reads-compared sub a op v h k l t e =
      let w = stringify_value v ++ t in
      let x = operator_text op ++ b' ' ∷ w in
      let (no_present, after_space, no_group) = operator_first op w k in
      ground (
        arith,
        paren_group-none sub a b' ' x (attribute_chars a h) (attribute_first a [] h).1 refl
            no_group,
        after_attribute a x h,
        no_present,
        after_space,
        operator_read op w k,
        spaced w (literal_first v t l),
        comparison_value-stringify v t l (end_number t e),
      )

  before_bracket :
      (a x : Text) → IsAttribute a → attribute_path (a ++ b'[' ∷ x) ≡ some (a, b'[' ∷ x)
  unfolding is_path_char is_name_char is_uri_char nat_eq
  before_bracket a x h = attribute_path-append a (b'[' ∷ x) h refl

  no_value_atom :
      (sub : Parser Node) (a x : Text) → IsAttribute a → value_atom sub (a ++ b'[' ∷ x) ≡ none
  unfolding value_atom attribute_expression nat_eq
  no_value_atom sub a x h = ground (
    arith,
    paren_group-none sub a b'[' x (attribute_chars a h) (attribute_first a [] h).1 refl refl,
    before_bracket a x h,
  )

  pub Reads-value_path :
      (sub value_sub : Parser Node) (path : Text) (f : Node)
      → IsAttribute path
      → ReadsWhole value_sub f
      → Reads (filter_atom sub value_sub) (value_path path f)
  unfolding filter_atom value_path_of enclosed byte with_path emit is_closed nat_eq
  Reads-value_path sub value_sub path f h reads t e = ground (
    arith,
    no_value_atom sub path (emit f (b']' ∷ t)) h,
    before_bracket path (emit f (b']' ∷ t)) h,
    reads (b']' ∷ t) refl,
  )

  pub Reads-filter_atom :
      (sub value_sub : Parser Node) (n : Node)
      → Reads (value_atom sub) n
      → Reads (filter_atom sub value_sub) n
  unfolding filter_atom
  Reads-filter_atom sub value_sub n reads t e = ground (arith, reads t e)

  -- A printed filter does not begin with a space.
  pub emit_first : (n : Node) (t : Text) → IsFilter n → no_space_first (emit n t) ≡ true
  unfolding IsFilter emit nat_eq
  emit_first (compared a op v) t (h, k, l) =
      (attribute_first a (b' ' ∷ (operator_text op ++ b' ' ∷ (stringify_value v ++ t))) h).0
  emit_first (present a) t h = (attribute_first a (b' ' ∷ b'p' ∷ b'r' ∷ t) h).0
  emit_first (conjunction l r) t h = refl
  emit_first (disjunction l r) t h = refl
  emit_first (negated n) t h = refl
  emit_first (value_path path f) t (h, k) = (attribute_first path (b'[' ∷ emit f (b']' ∷ t)) h).0
