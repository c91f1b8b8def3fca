-- ===== src/Filter/Grammar.antt =====
-- pkg/filter/grammar.go and parse.go: the grammar of filters.
use scim_go.Prelude.{
  ℕ, zero, suc, Text, Bool, true, false, Option, none, some, List, [], ◌∷◌, bytes, if◌then◌else◌,
  ◌==◌, nat_eq, get_or,
}
use scim_go.Core.Value.{Value, null, text, boolean, number}
use scim_go.Filter.Operator.{
  Operator, op_equals, op_not_equals, op_contains, op_starts_with, op_ends_with, op_greater_than,
  op_greater_than_equals, op_less_than, op_less_than_equals, operator_text, op_present, op_and,
  op_or,
}
use scim_go.Filter.Node.{Node, compared, present, conjunction, disjunction, negated, value_path}
use scim_go.Filter.Scan.{
  Parser, str, fold_str, skip_spaces, space, attribute_path, number_lexeme, string_lexeme,
}
use scim_go.Filter.Strings.{Strings}
pub mod Printing
pub mod Emit
pub mod Literals
pub mod Attributes
pub mod Groups
pub mod Atoms
pub mod Parsed
pub mod Shapes
pub mod Agreement
pub mod Shrinking
pub mod Bounded
pub mod Fuel
pub mod RoundTrip

-- peg.Str of one byte
unfoldable pub byte : ℕ → Text → Option Text
byte b [] = none
byte b (c ∷ s) = if c == b then some s else none

-- peg.Fold, and the operator that its literal spells
unfoldable pub keyword : Operator → Parser Operator
unfolding fold_str
keyword op s = elim (fold_str (operator_text op) s) [ none ↦ none | some rest ↦ some (op, rest) ]

-- peg.Choice of keywords
unfoldable pub keywords : List Operator → Parser Operator
unfolding keyword
keywords [] s = none
keywords (op ∷ ops) s = elim (keyword op s) [ none ↦ keywords ops s | some r ↦ some r ]

-- comparisonOperator
unfoldable pub comparison_operator : Parser Operator
unfolding keywords
comparison_operator s =
    keywords
      (op_equals ∷ op_not_equals ∷ op_contains ∷ op_starts_with ∷ op_ends_with ∷ op_greater_than
        ∷ op_less_than ∷ op_greater_than_equals ∷ op_less_than_equals ∷ [])
      s

-- constant, one of the choices of comparisonValue, with the choices after it
unfoldable pub constant_or : Text → Value → Parser Value → Parser Value
unfolding str
constant_or literal v others s = elim (str literal s) [
  | none ↦ others s
  | some (_, rest) ↦ some (v, rest)
]

module _ ⦃S : Strings⦄ where
  -- convert of a match, with json.Number and json.Unmarshal
  unfoldable pub string_value : Parser Value
  unfolding string_lexeme
  string_value s = elim (string_lexeme s) [
    | none ↦ none
    | some (w, rest) ↦ elim (S.unmarshal w) [ none ↦ none | some out ↦ some (text out, rest) ]
  ]

  unfoldable pub number_value : Parser Value
  unfolding number_lexeme string_value
  number_value s = elim (number_lexeme s) [
    | none ↦ string_value s
    | some (w, rest) ↦ some (number w, rest)
  ]

  -- comparisonValue
  unfoldable pub comparison_value : Parser Value
  unfolding constant_or number_value
  comparison_value s =
      constant_or (bytes "false") (boolean false)
        (constant_or (bytes "null") null (constant_or (bytes "true") (boolean true) number_value)) s

  -- the second choice of attributeExpression, after the attribute and a space
  unfoldable pub comparison : Text → Parser Node
  unfolding comparison_operator comparison_value space
  comparison a s = elim (comparison_operator s) [
    | none ↦ none
    | some (op, s1) ↦ elim (space s1) [
      | none ↦ none
      | some s2 ↦ elim (comparison_value s2) [
        | none ↦ none
        | some (v, rest) ↦ some (compared a op v, rest)
      ]
    ]
  ]

  -- attributeExpression. Both choices begin with the attribute and a space.
  unfoldable pub attribute_expression : Parser Node
  unfolding attribute_path space keyword comparison
  attribute_expression s = elim (attribute_path s) [
    | none ↦ none
    | some (a, s1) ↦ elim (space s1) [
      | none ↦ none
      | some s2 ↦ elim (keyword op_present s2) [
        | some (_, rest) ↦ some (present a, rest)
        | none ↦ comparison a s2
      ]
    ]
  ]

-- peg.Str("("), sub, peg.Str(")"), or with brackets
unfoldable pub enclosed : ℕ → Parser Node → ℕ → Parser Node
unfolding byte
enclosed left sub right s = elim (byte left s) [
  | none ↦ none
  | some s1 ↦ elim (sub s1) [
    | none ↦ none
    | some (n, s2) ↦ elim (byte right s2) [ none ↦ none | some rest ↦ some (n, rest) ]
  ]
]

-- peg.Optional(peg.Space())
abbrev pub optional_space : Text → Text
optional_space s = get_or (space s) s

-- parenGroup
unfoldable pub negate : Option (Node × Text) → Option (Node × Text)
negate none = none
negate (some (n, rest)) = some (negated n, rest)

unfoldable pub paren_group : Parser Node → Parser Node
unfolding fold_str enclosed negate space
paren_group sub s = elim (fold_str (bytes "not") s) [
  | none ↦ enclosed b'(' sub b')' s
  | some s1 ↦ negate (enclosed b'(' sub b')' (optional_space s1))
]

-- valuePath
unfoldable pub with_path : Text → Option (Node × Text) → Option (Node × Text)
with_path path none = none
with_path path (some (n, rest)) = some (value_path path n, rest)

unfoldable pub value_path_of : Parser Node → Parser Node
unfolding attribute_path enclosed with_path
value_path_of value_filter s = elim (attribute_path s) [
  | none ↦ none
  | some (path, s1) ↦ with_path path (enclosed b'[' value_filter b']' s1)
]

-- operand: the space, the keyword, the space and the right side
unfoldable pub operand : Operator → Parser Node → Parser Node
unfolding space keyword
operand op right s = elim (space s) [
  | none ↦ none
  | some s1 ↦ elim (keyword op s1) [
    | none ↦ none
    | some (_, s2) ↦ elim (space s2) [ none ↦ none | some s3 ↦ right s3 ]
  ]
]

-- binaryExpression, after its left side
unfoldable pub binary : (Node → Node → Node) → Node → Text → Option (Node × Text) → Node × Text
binary node l rest none = (l, rest)
binary node l rest (some (r, rest')) = (node l r, rest')

-- the `and` of logExpr, which calls itself: the fuel bounds the operands
unfoldable pub and_expression : Parser Node → ℕ → Parser Node
unfolding operand binary
and_expression atom zero s = none
and_expression atom (suc fuel) s = elim (atom s) [
  | none ↦ none
  | some (l, s1) ↦ some (binary conjunction l s1 (operand op_and (and_expression atom fuel) s1))
]

-- logExpr
unfoldable pub log_expression : Parser Node → ℕ → Parser Node → Parser Node
unfolding and_expression
log_expression atom fuel fallback s = elim (and_expression atom fuel s) [
  | none ↦ none
  | some (l, s1) ↦ some (binary disjunction l s1 (operand op_or fallback s1))
]

module _ ⦃S : Strings⦄ where
  -- the atom of a value filter, which has no value path
  unfoldable pub value_atom : Parser Node → Parser Node
  unfolding paren_group attribute_expression
  value_atom sub s = elim (paren_group sub s) [ none ↦ attribute_expression s | some r ↦ some r ]

  -- filterAtom
  unfoldable pub filter_atom : Parser Node → Parser Node → Parser Node
  unfolding value_atom value_path_of
  filter_atom sub value_sub s = elim (value_atom sub s) [
    | none ↦ value_path_of value_sub s
    | some r ↦ some r
  ]

  -- grammar.valueFilter and grammar.filter. The fuel bounds the depth and the operands.
  unfoldable pub value_filter : ℕ → Parser Node
  unfolding log_expression value_atom
  value_filter zero s = none
  value_filter (suc fuel) s =
      log_expression (value_atom (value_filter fuel)) (suc fuel) (value_filter fuel) s

  unfoldable pub filter : ℕ → Parser Node
  unfolding value_filter filter_atom log_expression
  filter zero s = none
  filter (suc fuel) s =
      log_expression (filter_atom (filter fuel) (value_filter fuel)) (suc fuel) (filter fuel) s
