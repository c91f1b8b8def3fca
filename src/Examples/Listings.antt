-- ===== src/Examples/Listings.antt =====
-- internal/memory, internal/etag and pkg/protocol: the theorems on listings, requests and tags, at
-- small inputs.
use scim_go.Prelude.{
  negsuc, none, ◌<◌, ◌^◌, ℕ, true, false, some, List, [], ◌∷◌, ◌++◌, list_eq, nat_eq, bytes, swap,
  pos, ◌≡◌, refl, arith, map,
}
use scim_go.Prelude.Dict.{lookup}
use scim_go.Core.Kinds.{uniqueness_eq, type_eq}
use scim_go.Core.Value.{Value}
use scim_go.Etag.{weak, parse, read_digits, read_number, positive, negative}
use scim_go.Etag.RoundTrip.{parse-weak}
use scim_go.Protocol.{
  SearchRequest, default_limits, offset, at_least_zero, parse_search_request, int_param, normalize,
  normal_order, bounded, list_param,
}
use scim_go.Protocol.Bounds.{WithinLimits, parse_search_request-WithinLimits}
use scim_go.Memory.Query.{Row, page, compare_sort_keys}
use scim_go.Memory.Query.Paging.{page-append}
use scim_go.Memory.Query.Walk.{walk, walk-length}
use scim_go.Memory.Operations.{record_of}
use scim_go.Memory.Query.Order.{compare_sort_keys-swap}
use scim_go.Memory.Unique.{key_eq}
use scim_go.Examples.{ascii, plain, user_name, ann, empty}

abbrev request : ℕ → ℕ → SearchRequest
request start count = record {
  attributes = [];
  excluded_attributes = [];
  filter = [];
  sort_by = [];
  sort_order = [];
  start_index = pos start;
  count = pos count;
  in_body = false;
}

abbrev rows : List Row
rows =
    record { id = bytes "1"; entry = ann; object = [] }
    ∷ record { id = bytes "2"; entry = ann; object = [] }
    ∷ record { id = bytes "3"; entry = ann; object = [] }
    ∷ []

page-append_example :
    page empty (request 1 2) [] rows ++ page empty (request 3 4) [] rows
    ≡ page empty (request 1 6) [] rows
page-append_example =
    page-append empty (request 1 2) (request 3 4) (request 1 6) [] rows
      (unfold offset at_least_zero in refl) (unfold offset in refl) (unfold at_least_zero in refl)

compare_sort_keys-swap_example :
    (compare_sort_keys user_name (Value.text (bytes "a")) (Value.text (bytes "b")) true
      ≡ swap (compare_sort_keys user_name (Value.text (bytes "b")) (Value.text (bytes "a")) true))
    × (compare_sort_keys user_name (Value.text (bytes "a")) (Value.text (bytes "b")) true
        ≡ compare_sort_keys user_name (Value.text (bytes "b")) (Value.text (bytes "a")) false)
compare_sort_keys-swap_example =
    compare_sort_keys-swap user_name (Value.text (bytes "a")) (Value.text (bytes "b")) true

-- Requests
abbrev accepted : SearchRequest
accepted = request 1 100

parse_search_request-WithinLimits_example : WithinLimits 100 accepted
parse_search_request-WithinLimits_example =
    parse_search_request-WithinLimits default_limits 100
      ((bytes "count", bytes "500" ∷ []) ∷ (bytes "startIndex", bytes "-4" ∷ []) ∷ []) accepted refl
      (unfold parse_search_request list_param int_param normalize normal_order bounded lookup
          read_digits read_number positive negative list_eq nat_eq in
        refl)

-- Entity tags
parse-weak_example :
    (1700000000000000 < 2 ^ 63 → parse (weak (pos 1700000000000000)) ≡ some 1700000000000000)
    × (parse (weak (negsuc 1700000000000000)) ≡ none)
parse-weak_example = parse-weak 1700000000000000

walk-length_example :
    walk empty (request 1 2) [] rows 0 4 ≡ map (λ (r : Row). record_of empty r.id r.entry []) rows
walk-length_example =
    walk-length empty (request 1 2) [] rows 4 (unfold at_least_zero in omega arith) (omega arith)
