-- ===== src/Filter/Strings.antt =====
-- encoding/json on strings, as the grammar and the printer of pkg/filter call it. The code is not in
-- the repository, so it is a record of functions, with the laws that it documents.
use scim_go.Prelude.{Text, Bool, true, Option, some, [], ◌≡◌}
use scim_go.Filter.Scan.{string_lexeme}

pub record Strings : Type 0 where
  -- json.Unmarshal into a string, and json.Marshal of a string
  pub unmarshal : Text → Option Text
  pub marshal : Text → Text
  -- utf8.ValidString
  pub is_valid : Text → Bool
  -- json.Unmarshal replaces what is not valid UTF-8.
  pub unmarshal_valid : (s out : Text) → unmarshal s ≡ some out → is_valid out ≡ true
  -- json.Marshal writes one JSON string, which json.Unmarshal reads back.
  pub marshal_string : (s : Text) → string_lexeme (marshal s) ≡ some (marshal s, [])
  pub unmarshal-marshal : (s : Text) → is_valid s ≡ true → unmarshal (marshal s) ≡ some s
