-- ===== src/Protocol.antt =====
-- pkg/protocol: search_request.go and limits.go. An int is an integer without bound here; the numbers
-- that a client sends come out of strconv.Atoi, which bounds them.
use scim_go.Prelude.{
  ℕ, zero, suc, ◌+◌, ◌-◌, min, Text, Bool, true, false, Option, none, some, List, [], ◌∷◌, ◌==◌,
  list_eq, nat_eq, bytes, if◌then◌else◌, ◌&&◌, not, ltb, length, ℤ, pos, negsuc, Dict.Dict, ◌++◌,
  get_or,
}
use scim_go.Prelude.Dict.{lookup}
use scim_go.Runtime.{Runtime}
use scim_go.Errors.{Result, ok, err, err_invalid_value, err_too_large, ◌>>=◌}
use scim_go.Etag.{parse_int}
pub mod Bounds
pub mod Attribute
pub mod Visitor
pub mod Validation
pub mod Projection

abbrev pub sort_ascending : Text
sort_ascending = bytes "ascending"

abbrev pub sort_descending : Text
sort_descending = bytes "descending"

-- SearchRequest
pub record SearchRequest : Type 0 where
  pub attributes : List Text
  pub excluded_attributes : List Text
  pub filter : Text
  pub sort_by : Text
  pub sort_order : Text
  pub start_index : ℤ
  pub count : ℤ
  pub in_body : Bool

-- max(z, 0), as a number
unfoldable pub at_least_zero : ℤ → ℕ
at_least_zero (pos n) = n
at_least_zero (negsuc n) = 0

-- max(z, 1)
unfoldable pub at_least_one : ℤ → ℕ
at_least_one (pos zero) = 1
at_least_one (pos (suc n)) = suc n
at_least_one (negsuc n) = 1

-- SearchRequest.Offset
unfoldable pub offset : SearchRequest → ℕ
unfolding at_least_one
offset s = at_least_one s.start_index - 1

-- SearchRequest.Descending
unfoldable pub descending : SearchRequest → Bool
descending s = s.sort_order == sort_descending

-- Limits
pub record Limits : Type 0 where
  pub default_count : ℤ
  pub max_count : ℤ
  pub max_operations : ℤ

-- DefaultLimits
abbrev pub default_limits : Limits
default_limits = record { default_count = pos 100; max_count = pos 100; max_operations = pos 100 }

-- min(max(count, 0), limit)
unfoldable pub clamp : ℤ → ℤ → ℤ
unfolding at_least_zero
clamp count (pos limit) = pos (min (at_least_zero count) limit)
clamp count (negsuc limit) = negsuc limit

-- the switch of `normalize`: the order, or the error
unfoldable pub normal_order : Text → Text → Result Text
normal_order order sort_by =
    if order == sort_ascending
    then ok order
    else if order == sort_descending
    then ok order
    else if order == []
    then ok (if sort_by == [] then order else sort_ascending)
    else err err_invalid_value

unfoldable pub bounded : Limits → SearchRequest → Text → SearchRequest
unfolding at_least_one clamp
bounded l req order = record req {
  sort_order = order;
  start_index = pos (at_least_one req.start_index);
  count = clamp req.count l.max_count;
}

-- Limits.normalize
unfoldable pub normalize : Limits → SearchRequest → Result SearchRequest
unfolding normal_order bounded
normalize l req = normal_order req.sort_order req.sort_by >>= λ order. ok (bounded l req order)

-- url.Values, and its Get: the first value, or the empty text
abbrev pub Values : Type 0
Values = Dict Text (List Text)

abbrev first_of : Option (List Text) → Text
first_of none = []
first_of (some []) = []
first_of (some (v ∷ _)) = v

abbrev pub get_param : Values → Text → Text
get_param values name = first_of (lookup name values)

-- the result of strconv.Atoi, which is parse_int where an int has 64 bits
abbrev number_or_error : Option ℤ → Result ℤ
number_or_error none = err err_invalid_value
number_or_error (some z) = ok z

-- intParam
unfoldable pub int_param : Values → Text → ℤ → Result ℤ
unfolding parse_int
int_param values name fallback =
    let raw = get_param values name in
    if raw == [] then ok fallback else number_or_error (parse_int raw)

-- strings.SplitSeq(s, ",")
unfoldable pub split_commas : Text → List Text
split_commas [] = [] ∷ []
split_commas (c ∷ s) = elim (split_commas s) [
  | [] ↦ (c ∷ []) ∷ []
  | item ∷ items ↦ if c == b',' then [] ∷ item ∷ items else (c ∷ item) ∷ items
]

module _ ⦃R : Runtime⦄ where
  -- the inner loop of `listParam`: the items that are not blank, trimmed
  unfoldable pub trimmed : List Text → List Text
  trimmed [] = []
  trimmed (raw ∷ raws) =
      let rest = trimmed raws in
      let item = R.trim_space raw in if item == [] then rest else item ∷ rest

  unfoldable pub items_of : List Text → List Text
  items_of [] = []
  items_of (raw ∷ raws) = trimmed (split_commas raw) ++ items_of raws

  -- listParam
  unfoldable pub list_param : Values → Text → List Text
  unfolding items_of trimmed split_commas
  list_param values name = items_of (get_or (lookup name values) [])

  -- Limits.ParseSearchRequest. The "schemas" of the request, a constant, are left out.
  unfoldable pub parse_search_request : Limits → Values → Result SearchRequest
  unfolding int_param
  parse_search_request l values = int_param values (bytes "startIndex") (pos 1) >>= λ start.
      int_param values (bytes "count") l.default_count >>= λ count. normalize l (record {
        attributes = list_param values (bytes "attributes");
        excluded_attributes = list_param values (bytes "excludedAttributes");
        filter = get_param values (bytes "filter");
        sort_by = get_param values (bytes "sortBy");
        sort_order = get_param values (bytes "sortOrder");
        start_index = start;
        count = count;
        in_body = false;
      })

-- what Limits.DecodePatchRequest checks of the decoded operations
unfoldable pub limit_operations {ℓ} : {A : Type ℓ} → Limits → List A → Result (List A)
limit_operations l operations =
    let limit = at_least_zero l.max_operations in
    if ltb 0 limit && ltb limit (length operations) then err err_too_large else ok operations
