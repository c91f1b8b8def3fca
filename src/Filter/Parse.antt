-- ===== src/Filter/Parse.antt =====
-- pkg/filter/grammar.go, parse.go, path.go, attr_path.go and parse_error.go: a whole text read as a
-- filter, as a path or as an attribute path.
use scim_go.Prelude.{
  ℕ, suc, ◌-◌, ltb, Text, Bool, Option, none, some, [], ◌∷◌, ◌==◌, list_eq, nat_eq, length,
  if◌then◌else◌, ◌&&◌, ◌⊎◌, inl, inr,
}
use scim_go.Filter.Path.{AttrPath, split_attr_path}
use scim_go.Filter.Node.{Node, value_path}
use scim_go.Filter.Scan.{Parser, attribute_path, sub_attribute_name}
use scim_go.Filter.Strings.{Strings}
use scim_go.Filter.Grammar.{filter, value_filter, value_path_of}
pub mod RoundTrip

-- ErrInputTooLarge, ParseError
pub data ParseFailure : Type 0 where
  input_too_large : ParseFailure
  parse_error : Text → ℕ → ParseFailure

-- grammar.exceedsMax
unfoldable pub exceeds_max : ℕ → Text → Bool
exceeds_max max_input text = ltb 0 max_input && ltb max_input (length text)

-- grammar.run, after the parser: a parser that fails is where it began.
unfoldable pub run_end {ℓ} : {A : Type ℓ} → Text → Option (A × Text) → ParseFailure ⊎ A
run_end text none = inl (parse_error text 0)
run_end text (some (a, [])) = inr a
run_end text (some (a, c ∷ rest)) = inl (parse_error text (length text - length (c ∷ rest)))

-- grammar.run
unfoldable pub run : {A : Type 0} → ℕ → Parser A → Text → ParseFailure ⊎ A
unfolding exceeds_max run_end
run max_input p text =
    if exceeds_max max_input text then inl input_too_large else run_end text (p text)

-- NewAttrPath
abbrev default_max : ℕ
default_max = 8192

unfoldable pub new_attr_path : Text → ParseFailure ⊎ AttrPath
unfolding run split_attr_path attribute_path
new_attr_path text = elim (run default_max attribute_path text) [
  | inl e ↦ inl e
  | inr raw ↦ inr (split_attr_path raw)
]

-- Path
pub record PatchPath : Type 0 where
  pub attr_path : AttrPath
  pub value_filter : Option Node

module _ ⦃S : Strings⦄ where
  -- grammar.Parse. The fuel is more than the bytes of the text.
  unfoldable pub parse_within : ℕ → Text → ParseFailure ⊎ Node
  unfolding run filter
  parse_within max_input text = run max_input (filter (suc (length text))) text

  -- Parse
  unfoldable pub parse : Text → ParseFailure ⊎ Node
  unfolding parse_within
  parse text = parse_within default_max text

-- what the grammar gives for a path: the path and the value filter with the sub-attribute after it
pub data PathNode : Type 0 where
  plain : Text → PathNode
  filtered : Text → Node → Text → PathNode

filtered_path : Option (Node × Text) → Option (PathNode × Text)
unfolding sub_attribute_name
filtered_path (some (value_path path f, rest)) = elim (sub_attribute_name rest) [
  | none ↦ some (filtered path f [], rest)
  | some (sub, rest') ↦ some (filtered path f sub, rest')
]
filtered_path _ = none

plain_path : Option (Text × Text) → Option (PathNode × Text)
plain_path none = none
plain_path (some (path, rest)) = some (plain path, rest)

-- strings.IndexByte, of a byte that is there
index_byte : ℕ → Text → ℕ
index_byte b [] = 0
index_byte b (c ∷ s) = let rest = index_byte b s in if c == b then 0 else suc rest

-- NewPath, after the grammar: a path with two sub-attributes is an error where the filter begins.
patch_path : Text → PathNode → ParseFailure ⊎ PatchPath
unfolding split_attr_path index_byte
patch_path text (plain path) =
    inr (record { attr_path = split_attr_path path; value_filter = none })
patch_path text (filtered path f sub) =
    let p = split_attr_path path in
    if p.sub_attribute == []
    then inr (record { attr_path = record p { sub_attribute = sub }; value_filter = some f })
    else inl (parse_error text (index_byte b'[' text))

module _ ⦃S : Strings⦄ where
  -- grammar.path
  path_node : ℕ → Parser PathNode
  unfolding filtered_path plain_path value_path_of attribute_path value_filter
  path_node fuel s = elim (filtered_path (value_path_of (value_filter fuel) s)) [
    | none ↦ plain_path (attribute_path s)
    | some r ↦ some r
  ]

  -- NewPath
  unfoldable pub new_path : Text → ParseFailure ⊎ PatchPath
  unfolding run path_node patch_path
  new_path text = elim (run default_max (path_node (suc (length text))) text) [
    | inl e ↦ inl e
    | inr node ↦ patch_path text node
  ]
