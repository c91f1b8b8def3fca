-- ===== src/Filter/Scan.antt =====
-- pkg/filter/grammar.go and pkg/filter/internal/peg: the parsers of one piece of text. The state of a
-- parser is the text after its position. A parser that fails leaves the position where it was, as
-- each does in Go, so `none` needs no position.
use scim_go.Prelude.{
  ℕ, zero, suc, ◌+◌, Text, Bool, true, false, Option, none, some, List, [], ◌∷◌, ◌++◌, ◌==◌,
  list_eq, nat_eq, bytes, ◌&&◌, ◌||◌, not, leb, if◌then◌else◌,
}
pub mod Names
pub mod Paths
pub mod Lengths
pub mod Digits
pub mod Numbers

-- peg.Parser, by what it returns
abbrev pub Parser : Type 0 → Type 0
Parser A = Text → Option (A × Text)

abbrev pub is_digit : ℕ → Bool
is_digit c = leb b'0' c && leb c b'9'

abbrev pub is_letter : ℕ → Bool
is_letter c = (leb b'a' c && leb c b'z') || (leb b'A' c && leb c b'Z')

-- [a-zA-Z0-9_\-]
unfoldable pub is_name_char : ℕ → Bool
is_name_char c = is_letter c || is_digit c || c == b'_' || c == b'-'

-- [A-Za-z0-9.\-]
unfoldable pub is_uri_char : ℕ → Bool
is_uri_char c = is_letter c || is_digit c || c == b'.' || c == b'-'

-- Puts a byte in front of what was read.
abbrev pub push : ℕ → Option (Text × Text) → Option (Text × Text)
push c none = none
push c (some (s, rest)) = some (c ∷ s, rest)

-- The longest start of a text whose bytes satisfy the test, and what follows it.
unfoldable pub span : (ℕ → Bool) → Text → Text × Text
span p [] = ([], [])
span p (c ∷ s) = let (kept, rest) = span p s in if p c then (c ∷ kept, rest) else ([], c ∷ s)

-- peg.Str
unfoldable pub str : Text → Parser Text
str [] s = some ([], s)
str (p ∷ ps) [] = none
str (p ∷ ps) (c ∷ s) = let rest = str ps s in if p == c then push c rest else none

-- ASCII letters in lower case
abbrev pub lower : ℕ → ℕ
lower c = if leb b'A' c && leb c b'Z' then c + 32 else c

-- peg.Fold, which returns the literal. The literals are lower-case ASCII, and a rune that is not
-- ASCII and folds to a letter takes more bytes than the letter, so bytes are compared.
unfoldable pub fold_str : Text → Text → Option Text
fold_str [] s = some s
fold_str (p ∷ ps) [] = none
fold_str (p ∷ ps) (c ∷ s) = let rest = fold_str ps s in if p == lower c then rest else none

-- peg.Space
unfoldable pub skip_spaces : Text → Text
skip_spaces [] = []
skip_spaces (c ∷ s) = let rest = skip_spaces s in if c == b' ' then rest else c ∷ s

unfoldable pub space : Text → Option Text
unfolding skip_spaces
space [] = none
space (c ∷ s) = if c == b' ' then some (skip_spaces s) else none

-- reAttributeName
unfoldable pub attribute_name : Parser Text
attribute_name [] = none
attribute_name (c ∷ s) =
    let (kept, rest) = span is_name_char s in if is_letter c then some (c ∷ kept, rest) else none

-- What follows a colon in reSchemaURI is taken if a colon ends it too, and given back otherwise.
unfoldable pub or_stop : ℕ → Text → Option (Text × Text) → Option (Text × Text)
or_stop c s none = some (c ∷ [], s)
or_stop c s (some (more, rest)) = some (c ∷ more, rest)

-- reSchemaURI after its first letter; the flag tells whether a colon may stand here.
unfoldable pub uri_scan : Bool → Parser Text
unfolding or_stop
uri_scan started [] = none
uri_scan started (c ∷ s) =
    let rest = uri_scan (is_uri_char c) s in
    if is_uri_char c then push c rest else if started && c == b':' then or_stop c s rest else none

-- reSchemaURI
unfoldable pub uri_prefix : Parser Text
unfolding uri_scan
uri_prefix [] = none
uri_prefix (c ∷ s) = let rest = uri_scan true s in if is_letter c then push c rest else none

-- subAttribute: the name after a dot
unfoldable pub sub_attribute_name : Parser Text
unfolding attribute_name
sub_attribute_name [] = none
sub_attribute_name (c ∷ s) = let name = attribute_name s in if c == b'.' then name else none

-- what attributePath returns after its prefix and name
unfoldable pub with_sub : Text → Text → Option (Text × Text) → Text × Text
with_sub path s none = (path, s)
with_sub path s (some (sub, rest)) = (path ++ b'.' ∷ sub, rest)

unfoldable pub named_path : Text → Parser Text
unfolding attribute_name sub_attribute_name with_sub
named_path prefix s = elim (attribute_name s) [
  | none ↦ none
  | some (name, rest) ↦ some (with_sub (prefix ++ name) rest (sub_attribute_name rest))
]

-- attributePath. schemaURI cuts the colon off the match and attributePath puts it back.
unfoldable pub attribute_path : Parser Text
unfolding uri_prefix named_path
attribute_path s = elim (uri_prefix s) [
  | none ↦ named_path [] s
  | some (prefix, rest) ↦ named_path prefix rest
]

-- reNumber: the digits of an integer, a fraction and an exponent
unfoldable pub digits_from : Parser Text
unfolding span
digits_from [] = none
digits_from (c ∷ s) =
    let (kept, rest) = span is_digit s in if is_digit c then some (c ∷ kept, rest) else none

unfoldable pub whole : Parser Text
unfolding span
whole [] = none
whole (c ∷ s) =
    let (kept, rest) = span is_digit s in
    if c == b'0' then some (c ∷ [], s) else if is_digit c then some (c ∷ kept, rest) else none

-- an optional group
abbrev pub optional : Option (Text × Text) → Text → Text × Text
optional none s = ([], s)
optional (some r) s = r

unfoldable pub fraction : Parser Text
unfolding digits_from
fraction [] = none
fraction (c ∷ s) = let more = digits_from s in if c == b'.' then push c more else none

unfoldable pub signed_digits : Parser Text
unfolding digits_from
signed_digits [] = none
signed_digits (c ∷ s) =
    let more = digits_from s in if c == b'+' || c == b'-' then push c more else digits_from (c ∷ s)

unfoldable pub exponent : Parser Text
unfolding signed_digits
exponent [] = none
exponent (c ∷ s) =
    let more = signed_digits s in if c == b'e' || c == b'E' then push c more else none

unfoldable pub unsigned : Parser Text
unfolding whole fraction exponent
unsigned s = elim (whole s) [
  | none ↦ none
  | some (w, s1) ↦
      let (f, s2) = optional (fraction s1) s1 in
      let (e, s3) = optional (exponent s2) s2 in some (w ++ (f ++ e), s3)
]

unfoldable pub number_lexeme : Parser Text
unfolding unsigned
number_lexeme [] = none
number_lexeme (c ∷ s) = let more = unsigned s in if c == b'-' then push c more else unsigned (c ∷ s)

-- reString after its first quote; the flag tells that a backslash stands before. A dot of a regular
-- expression matches every byte but a line break.
unfoldable pub string_scan : Bool → Parser Text
string_scan escaped [] = none
string_scan true (c ∷ s) =
    let more = string_scan false s in if c == b'\n' then none else push c more
string_scan false (c ∷ s) =
    let more = string_scan (c == b'\\') s in if c == b'"' then some (c ∷ [], s) else push c more

-- reString
unfoldable pub string_lexeme : Parser Text
unfolding string_scan
string_lexeme [] = none
string_lexeme (c ∷ s) = let more = string_scan false s in if c == b'"' then push c more else none
