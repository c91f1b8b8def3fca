-- ===== src/Examples.antt =====
-- Concrete inputs for the theorems: a runtime for ASCII, a JSON reader of two texts, a store of users
-- and groups, and for each of the main results a case where its hypotheses hold.
mod Stores
mod Listings
mod Graphs
mod Values
mod Filters
mod States
mod Patches
mod Elements
use scim_go.Prelude.{
  ℕ, zero, suc, ◌+◌, ◌≤◌, ◌<◌, Text, Bool, true, false, Option, none, some, List, [], ◌∷◌, ◌++◌,
  ◌==◌, list_eq, nat_eq, bytes, map, ltb, leb, if◌then◌else◌, ◌&&◌, not, compare, Ordering, swap, ℤ,
  pos, negsuc, int_compare, ◌≡◌, ◌≢◌, refl, arith, Dict.Dict, contains, is_some, length, min, ◌-◌,
}
use scim_go.Prelude.Dict.{lookup, insert}
use scim_go.Runtime.{Runtime, equal_fold}
use scim_go.Decode.{Json, Token, decode_object}
use scim_go.Core.Kinds.{
  type_string, read_write, returned_default, uniqueness_none, uniqueness_server, uniqueness_eq,
  type_eq,
}
use scim_go.Core.Value.{Value, Object}
use scim_go.Core.Attribute.{Attribute, Traits, attribute, no_attributes, lookup_fold}
use scim_go.Core.Schemas.{Schema, Schemas, common_attributes}
use scim_go.Fields.{new_fields, field_values}
use scim_go.Core.Object.{get, set, key}
use scim_go.Etag.{weak, format_int, digits, parse, read_digits, read_number, positive, negative}
use scim_go.Etag.RoundTrip.{parse-weak, weak-injective}
use scim_go.Store.Embed.{embed}
use scim_go.Protocol.{
  SearchRequest, Limits, default_limits, offset, at_least_zero, parse_search_request, int_param,
  normalize, normal_order, bounded,
}
use scim_go.Protocol.Bounds.{WithinLimits, parse_search_request-WithinLimits}
use scim_go.Memory.Versions.{no_lost_update}
use scim_go.Memory.Query.{Row, page, compare_sort_keys}
use scim_go.Memory.Query.Paging.{page-append, length-page}
use scim_go.Memory.Query.Order.{compare_sort_keys-swap, compare_sort_keys_missing}
use scim_go.Core.Coerce.{coerce, fold}
use scim_go.Value.{is_unassigned, defaulted, is_primary}
use scim_go.Store.Link.{Link, link_diff}
use scim_go.Store.Record.{Document, Record}
use scim_go.Memory.State.{Handle, Entry, Memory, IndexKey, KeyValue, key_text, new_memory, bumped}
use scim_go.Memory.Inbound.{has_edge, links_to, edges, same_edge, relink}
use scim_go.Memory.Unique.{index_keys, key_eq, conflict, add_keys, remove_keys}
use scim_go.Memory.Entries.{
  find, check_links, check_link, check_targets, check_acyclic, reaches, reaches_loop, unseen, touch,
  touch_one, resolved,
}
use scim_go.Memory.Targets.{targets_of, changed_targets}
use scim_go.Memory.Operations.{
  record_of, relations, keys_of, next_entry, locate, create, update, delete, save, save_decoded,
  save_verified, verify, commit, done, failed, no_match,
}
use scim_go.Memory.Mirror.{Mirror, create-Mirror, update-Mirror, linked}
use scim_go.Memory.Removal.{linked-delete, delete-Mirror}
use scim_go.Memory.Uniqueness.{Indexed, Owns, create-Indexed, update-Indexed, keys_at, entry_keys}

-- ASCII letters in lower case
abbrev pub lower : ℕ → ℕ
lower c = if leb b'A' c && leb c b'Z' then c + 32 else c

pub lower_eq_nil : (s : Text) → map lower s ≡ [] → s ≡ []
lower_eq_nil [] h = refl
lower_eq_nil (c ∷ s) h = cc

pub compare-swap : (a b : ℕ) → compare a b ≡ swap (compare b a)
compare-swap a b = ground arith

instance abbrev pub ascii : Runtime
ascii = record {
  fold = map lower;
  to_lower = map lower;
  trim_space = λ s. s;
  parse_float = λ s. none;
  parse_int = λ s. none;
  float_of_int = λ z. 0;
  int_of_float = λ f. pos 0;
  is_whole = λ f. true;
  float_compare = compare;
  parse_zoned = λ s. none;
  parse_local = λ s. none;
  is_padded_base64 = λ s. false;
  is_raw_base64 = λ s. false;
  precis = λ kept s. some s;
  is_right_to_left = λ s. false;
  is_valid_bidi = λ s. true;
  is_uuid = λ s. not (s == []);
  fold-eq-nil = lower_eq_nil;
  fold-nil = refl;
  float_compare_swap = compare-swap;
}

-- The text "u" stands for a user with a name, and every other text for an empty object.
abbrev user_tokens : List Token
user_tokens =
    Token.begin_object
    ∷ Token.string_token (bytes "userName")
    ∷ Token.string_token (bytes "Ann")
    ∷ Token.end_object
    ∷ []

instance abbrev pub plain : Json
plain = record {
  tokens = λ s. if s == bytes "u" then user_tokens else Token.begin_object ∷ Token.end_object ∷ [];
  marshal = λ v. [];
  quote = λ s. s;
}

-- A unique "userName", and the schemas of users and of groups.
abbrev text_traits : ℕ → Text → Traits
text_traits address name = record {
  address = address;
  name = name;
  kind = type_string;
  multi_valued = false;
  description = [];
  required = true;
  canonical_values = [];
  case_exact = false;
  mutability = read_write;
  returned = returned_default;
  uniqueness = uniqueness_none;
  reference_types = [];
  inverse_of = [];
}

abbrev pub user_name : Attribute
user_name =
    let t = text_traits 16 (bytes "userName") in
    attribute (record t { uniqueness = uniqueness_server }) no_attributes

abbrev pub user_schema : Schema
user_schema = record {
  address = 1;
  id = bytes "user";
  name = bytes "User";
  description = [];
  attributes = user_name ∷ [];
}

abbrev pub group_schema : Schema
group_schema = record {
  address = 2;
  id = bytes "group";
  name = bytes "Group";
  description = [];
  attributes = attribute (text_traits 17 (bytes "displayName")) no_attributes ∷ [];
}

abbrev handle_of : Schema → Handle
handle_of s = record {
  location = s.name;
  base = s;
  extensions = [];
  references = [];
  fields = new_fields (s ∷ []);
}

abbrev pub users : Handle
users = handle_of user_schema

abbrev pub ann : Entry
ann = record {
  schema = user_schema;
  owner = users;
  body = (bytes "userName", Value.text (bytes "Ann")) ∷ [];
  raw = bytes "u";
  links = [];
  created = 7;
  updated = 9;
}

abbrev pub members : List Text → Link
members ids = record {
  attribute = bytes "members";
  types = bytes "User" ∷ [];
  targets = ids;
  soft = false;
}

abbrev pub ann_key : IndexKey
ann_key = record { scope = 1; attribute = 16; value = key_text (bytes "ann") }

abbrev pub groups : Handle
groups = handle_of group_schema

abbrev pub empty : Memory
empty = new_memory (λ n. n + 7)

abbrev pub user_document : Document
user_document = record { id = bytes "1"; body = bytes "u"; links = []; references = [] }

abbrev pub group_document : Document
group_document = record {
  id = bytes "2";
  body = [];
  links = members (bytes "1" ∷ []) ∷ [];
  references = [];
}

-- A user "1", and a group "2" that she is a member of.
abbrev pub one_user : Memory
one_user = (create users empty user_document).1

abbrev pub company : Memory
company = (create groups one_user group_document).1
