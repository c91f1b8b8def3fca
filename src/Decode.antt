-- ===== src/Decode.antt =====
-- internal/decode: reading a JSON value from the tokens of encoding/json/jsontext. What the decoder
-- gives for a text is a list of tokens; `invalid` stands for its error, after which it gives none.
use scim_go.Prelude.{
  ℕ, zero, suc, Text, Bool, Option, none, some, List, [], ◌∷◌, ◌++◌, length, nat_eq, list_eq,
}
use scim_go.Prelude.Dict.{insert}
use scim_go.Core.Value.{
  Value, Object, null, text, boolean, number, array, object, entries, fields, items,
}

pub data Token : Type 0 where
  begin_object end_object begin_array end_array null_token invalid : Token
  string_token number_token : Text → Token
  bool_token : Bool → Token

-- The parts of encoding/json that the code calls: the tokens of a text, and json.Marshal.
pub record Json : Type 0 where
  pub tokens : Text → List Token
  pub marshal : Value → Text
  -- jsontext.AppendQuote
  pub quote : Text → Text

-- A value read, and the tokens after it.
abbrev pub Reading : Type 0 → Type 0
Reading A = Option (A × List Token)

-- readObject and readArray, with `read` for one value as a function. The fuel bounds the items.
read_object : (List Token → Reading Value) → ℕ → Object → List Token → Reading Value
read_object read zero out tokens = none
read_object read (suc fuel) out [] = none
read_object read (suc fuel) out (end_object ∷ rest) = some (object (fields out), rest)
read_object read (suc fuel) out (string_token name ∷ rest) = elim (read rest) [
  | none ↦ none
  | some (item, rest') ↦ read_object read fuel (insert name item out) rest'
]
read_object read (suc fuel) out (_ ∷ rest) = none

read_array : (List Token → Reading Value) → ℕ → List Value → List Token → Reading Value
read_array read zero out tokens = none
read_array read (suc fuel) out [] = none
read_array read (suc fuel) out (end_array ∷ rest) = some (array (items out), rest)
read_array read (suc fuel) out (token ∷ rest) = elim (read (token ∷ rest)) [
  | none ↦ none
  | some (item, rest') ↦ read_array read fuel (out ++ item ∷ []) rest'
]

-- `read`. The fuel bounds the depth and the items together: each token is taken once.
read : ℕ → List Token → Reading Value
unfolding read_object read_array
read zero tokens = none
read (suc fuel) (begin_object ∷ rest) = read_object (read fuel) (suc fuel) [] rest
read (suc fuel) (begin_array ∷ rest) = read_array (read fuel) (suc fuel) [] rest
read (suc fuel) (string_token s ∷ rest) = some (text s, rest)
read (suc fuel) (number_token s ∷ rest) = some (number s, rest)
read (suc fuel) (bool_token b ∷ rest) = some (boolean b, rest)
read (suc fuel) (null_token ∷ rest) = some (null, rest)
read (suc fuel) _ = none

-- `Value`: one value, and nothing after it
unfoldable pub value : List Token → Option Value
unfolding read
value tokens = elim (read (suc (length tokens)) tokens) [
  | none ↦ none
  | some (v, []) ↦ some v
  | some (v, _ ∷ _) ↦ none
]

module _ ⦃J : Json⦄ where
  -- `Value`, of a text
  unfoldable pub decode_value : Text → Option Value
  unfolding value
  decode_value raw = value (J.tokens raw)

  -- `Object`
  unfoldable pub decode_object : Text → Option Object
  unfolding value
  decode_object raw = elim (value (J.tokens raw)) [
    | some (object fs) ↦ some (entries fs)
    | _ ↦ none
  ]
