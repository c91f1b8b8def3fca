-- ===== src/Examples/Filters.antt =====
-- Tests of the filters: a json.Marshal of strings that escapes quotes and backslashes alone, and
-- filters that are parsed, printed and evaluated.
use scim_go.Prelude.{
  ℕ, Text, Bool, true, false, Option, none, some, [], ◌∷◌, ◌==◌, list_eq, nat_eq, bytes, ◌||◌,
  if◌then◌else◌, ◌≡◌, refl, ap, arith, inl, inr, Bool-cases, pos, any, ◌++◌, ◌⊎◌, map,
}
use scim_go.Filter.Scan.{span, string_scan, string_lexeme, push, is_uri_char, is_name_char}
use scim_go.Filter.Strings.{Strings}
use scim_go.Errors.{ok}
use scim_go.Core.Kinds.{returned_never, type_eq, mutability_eq, returned_eq}
use scim_go.Core.Attribute.{Attribute, attribute, no_attributes, traits, lookup_fold}
use scim_go.Core.Schemas.{
  Schema, resolve, lookup_schema, resolve_root, resolve_in, common_attributes,
}
use scim_go.Core.Coerce.{coerce}
use scim_go.Value.{hidden}
use scim_go.Value.Compare.{allowed}
use scim_go.Fields.{new_fields}
use scim_go.Protocol.{SearchRequest}
use scim_go.Protocol.Visitor.{visitor, accept}
use scim_go.Protocol.Visitor.Concealed.{guarded, visit-guarded}
use scim_go.Protocol.Visitor.Accepted.{FailsWith}
use scim_go.Protocol.Validation.{validate}
use scim_go.Protocol.Projection.{
  Projection, projected, project, project_in, project_with, shown, returns, always, returns_always,
  selected, covers,
}
use scim_go.Protocol.Projection.{qualified_key}
use scim_go.Filter.Parse.{new_attr_path}
use scim_go.Protocol.Projection.Names.{
  check_attributes, add_name, qualify_name, qualify_from, qualify, some_names, names_or_nil,
  new_projection,
}
use scim_go.Protocol.Projection.Names.Exclusive.{distinct, new_projection-is_exclusive}
use scim_go.Protocol.Projection.Disclosure.{discloses_entry, discloses-projected}
use scim_go.Memory.Query.Run.{filtered_rows}
use scim_go.Memory.Evaluator.Acceptance.{filtered_rows-validate, IsInvalidFilter}
use scim_go.Examples.{ascii, lower, user_name, user_schema}
use scim_go.Core.Value.{text, number, Object}
use scim_go.Filter.Operator.{op_equals, op_contains, op_greater_than, operator_text}
use scim_go.Filter.Node.{Node, compared, present, conjunction, disjunction, negated, value_path}
use scim_go.Filter.Visitor.{visit, stringify}
use scim_go.Filter.Parse.{parse_within}
use scim_go.Filter.Parse.RoundTrip.{parse-stringify}

pub escape : Text → Text
escape [] = b'"' ∷ []
escape (c ∷ s) =
    let rest = escape s in if c == b'"' || c == b'\\' then b'\\' ∷ c ∷ rest else c ∷ rest

abbrev front : ℕ → Option Text → Option Text
front c none = none
front c (some s) = some (c ∷ s)

pub unescape : Bool → Text → Option Text
unescape escaped [] = none
unescape true (c ∷ s) = let rest = unescape false s in front c rest
unescape false (c ∷ s) =
    let rest = unescape (c == b'\\') s in
    if c == b'\\' then rest else if c == b'"' then some [] else front c rest

abbrev read_quoted : Text → Option Text
read_quoted [] = none
read_quoted (c ∷ s) = unescape false s

scan_plain :
    (c : ℕ) (x : Text)
    → (c == b'"' || c == b'\\') ≡ false
    → string_scan false (c ∷ x) ≡ push c (string_scan false x)
unfolding string_scan
scan_plain c x h = ground arith

scan_after :
    (c : ℕ) (x : Text)
    → (c == b'"' || c == b'\\') ≡ true
    → string_scan true (c ∷ x) ≡ push c (string_scan false x)
unfolding string_scan
scan_after c x h = ground arith

scan_escaped :
    (c : ℕ) (x : Text)
    → (c == b'"' || c == b'\\') ≡ true
    → string_scan false (b'\\' ∷ c ∷ x) ≡ push b'\\' (push c (string_scan false x))
unfolding string_scan nat_eq
scan_escaped c x h = ap (push b'\\') (scan_after c x h)

end_scan : string_scan false (escape []) ≡ some (escape [], [])
unfolding escape string_scan nat_eq
end_scan = refl

escaped_string : (s : Text) → string_scan false (escape s) ≡ some (escape s, [])
unfolding escape
escaped_string [] = end_scan
escaped_string (c ∷ s) = elim (Bool-cases (c == b'"' || c == b'\\')) [
  | inl y ↦ ground (arith, scan_escaped c (escape s) y, escaped_string s)
  | inr n ↦ ground (arith, scan_plain c (escape s) n, escaped_string s)
]

pub unescape-escape : (s : Text) → unescape false (escape s) ≡ some s
unfolding escape unescape
unescape-escape [] = ground arith
unescape-escape (c ∷ s) = ground (arith, unescape-escape s)

pub marshal_escaped : (s : Text) → string_lexeme (b'"' ∷ escape s) ≡ some (b'"' ∷ escape s, [])
unfolding string_lexeme nat_eq
marshal_escaped s = ap (push b'"') (escaped_string s)

instance unfoldable pub escaping : Strings
unfolding escape unescape
escaping = record {
  unmarshal = read_quoted;
  marshal = λ s. b'"' ∷ escape s;
  is_valid = λ s. true;
  unmarshal_valid = λ s out h. refl;
  marshal_string = marshal_escaped;
  unmarshal-marshal = λ s h. unescape-escape s;
}

abbrev parsed : Node
parsed = disjunction (present (bytes "name")) (
    conjunction (negated (compared (bytes "urn:x:age") op_greater_than (number (bytes "10"))))
      (value_path (bytes "emails") (compared (bytes "type") op_equals (text (bytes "work")))))

abbrev source : Text
source = bytes "name PR or not(urn:x:age GT 10) and emails[type eq \"work\"]"

parse-stringify_example :
    (s : Text) × (visit stringify tt parsed ≡ ok s) × (parse_within 0 s ≡ inr parsed)
parse-stringify_example =
    parse-stringify 100 source parsed
      (unfold parse_within is_uri_char is_name_char list_eq nat_eq operator_text escaping in refl)

-- A user schema with a password that is never returned.
abbrev password : Attribute
password =
    attribute
      (record (traits user_name) {
        address = 90;
        name = bytes "password";
        returned = returned_never;
      })
      no_attributes

abbrev secret_schema : Schema
secret_schema = record user_schema { attributes = user_name ∷ password ∷ [] }

abbrev by_password : Node
by_password = compared (bytes "password") op_contains (text (bytes "a"))

visit-guarded_example :
    visit (visitor (secret_schema ∷ []) accept true) none by_password
    ≡ visit (visitor (secret_schema ∷ []) (guarded true accept) true) none by_password
visit-guarded_example = visit-guarded (secret_schema ∷ []) accept true refl none by_password refl

abbrev request : SearchRequest
request = record {
  attributes = [];
  excluded_attributes = [];
  filter = bytes "username EQ \"ann\"";
  sort_by = [];
  sort_order = [];
  start_index = pos 1;
  count = pos 10;
  in_body = false;
}

filtered_rows-validate_example :
    FailsWith IsInvalidFilter
      (filtered_rows (new_fields (secret_schema ∷ [])) (secret_schema ∷ []) request [])
filtered_rows-validate_example =
    filtered_rows-validate (new_fields (secret_schema ∷ [])) (secret_schema ∷ []) request [] (
      unfold validate is_uri_char is_name_char resolve lookup_schema resolve_root resolve_in
        lookup_fold common_attributes hidden type_eq mutability_eq returned_eq allowed coerce
        list_eq nat_eq operator_text escaping in
      refl)

abbrev by_default : Projection
by_default = record { schemas = secret_schema ∷ []; included = none; excluded = []; written = [] }

abbrev with_password : Object
with_password = (bytes "userName", text (bytes "ann")) ∷ (bytes "password", text (bytes "pw")) ∷ []

discloses-projected_example :
    any (λ e. discloses_entry by_default.schemas e.0 e.1) (projected by_default with_password)
    ≡ false
discloses-projected_example = discloses-projected by_default with_password

-- The user name stays, and the password goes.
projected_test : projected by_default with_password ≡ (bytes "userName", text (bytes "ann")) ∷ []
unfolding projected project project_in project_with resolve lookup_schema resolve_root resolve_in
    lookup_fold common_attributes shown returns hidden always returns_always selected covers
    mutability_eq returned_eq list_eq nat_eq
projected_test = refl

-- Both spellings name one attribute.
abbrev user_name_only : Projection
user_name_only = record {
  schemas = secret_schema ∷ [];
  included = some ((map lower (user_schema.id) ++ bytes ":username") ∷ []);
  excluded = [];
  written = [];
}

new_projection-is_exclusive_example :
    (distinct (names_or_nil user_name_only.included) ≡ true)
    × (distinct user_name_only.excluded ≡ true)
    × ((user_name_only.included ≡ none) ⊎ (user_name_only.excluded ≡ []))
new_projection-is_exclusive_example =
    new_projection-is_exclusive (secret_schema ∷ []) (bytes "userName" ∷ bytes "USERNAME" ∷ []) []
      user_name_only
      (unfold new_projection check_attributes qualify some_names qualify_from add_name qualify_name
          names_or_nil span qualified_key new_attr_path is_uri_char is_name_char resolve
          lookup_schema resolve_root resolve_in lookup_fold common_attributes list_eq nat_eq in
        refl)
