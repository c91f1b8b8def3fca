-- ===== src/Protocol/Bounds.antt =====
-- pkg/protocol/limits.go: the bounds of a search request.
use scim_go.Prelude.{
  ℕ, zero, suc, ◌-◌, ◌≤◌, Text, Bool, true, [], ◌==◌, ◌||◌, list_eq, nat_eq, bytes, ℤ, pos, negsuc,
  ◌≡◌, refl, arith, ap, sym,
}
use scim_go.Runtime.{Runtime}
use scim_go.Errors.{Result, ok, err, ◌>>=◌}
use scim_go.Protocol.{
  SearchRequest, Limits, Values, normalize, normal_order, bounded, clamp, at_least_zero,
  at_least_one, offset, parse_search_request, sort_ascending, sort_descending, int_param,
}

-- The request starts at 1 or later, asks for at most the limit, and sorts, if it does, in one of the
-- two orders.
abbrev pub WithinLimits : ℕ → SearchRequest → Type 0
WithinLimits limit r =
    (r.start_index ≡ pos (suc (offset r)))
    × (at_least_zero r.count ≤ limit)
    × (r.count ≡ pos (at_least_zero r.count))
    × (((r.sort_by == []) || (r.sort_order == sort_ascending) || (r.sort_order == sort_descending))
        ≡ true)

bind_ok {ℓ κ} :
    {A : Type ℓ} {B : Type κ} (m : Result A) (f : A → Result B) (b : B)
    → (m >>= f) ≡ ok b
    → (a : A) × (f a ≡ ok b)
bind_ok (ok a) f b h = (a, h)
bind_ok (err e) f b h = absurd (ground arith)

abbrev ordered : Text → Text → Bool
ordered sort_by order = (sort_by == []) || (order == sort_ascending) || (order == sort_descending)

normal_order_lem :
    (given sort_by order : Text)
    → normal_order given sort_by ≡ ok order
    → ordered sort_by order ≡ true
unfolding normal_order
normal_order_lem given sort_by order h = ground arith

at_least_one_lem : (z : ℤ) → at_least_one z ≡ suc (at_least_one z - 1)
unfolding at_least_one
at_least_one_lem (pos zero) = refl
at_least_one_lem (pos (suc n)) = omega arith
at_least_one_lem (negsuc n) = refl

clamp_lem :
    (count : ℤ) (limit : ℕ)
    → (at_least_zero (clamp count (pos limit)) ≤ limit)
      × (clamp count (pos limit) ≡ pos (at_least_zero (clamp count (pos limit))))
unfolding clamp at_least_zero
clamp_lem (pos n) limit = (omega arith, refl)
clamp_lem (negsuc n) limit = (omega arith, refl)

offset_idem : (z : ℤ) → at_least_one (pos (at_least_one z)) ≡ at_least_one z
unfolding at_least_one
offset_idem (pos zero) = refl
offset_idem (pos (suc n)) = refl
offset_idem (negsuc n) = refl

bounded-WithinLimits :
    (l : Limits) (limit : ℕ) (req : SearchRequest) (order : Text)
    → l.max_count ≡ pos limit
    → ordered req.sort_by order ≡ true
    → WithinLimits limit (bounded l req order)
unfolding bounded offset
bounded-WithinLimits l limit req order same h = rw same (
    (
      rw (offset_idem req.start_index) (ap pos (at_least_one_lem req.start_index)),
      (clamp_lem req.count limit).0,
      (clamp_lem req.count limit).1,
      h,
    ))

normalize_cases :
    (l : Limits) (limit : ℕ) (req r : SearchRequest) (o : Result Text)
    → l.max_count ≡ pos limit
    → normal_order req.sort_order req.sort_by ≡ o
    → (o >>= λ order. ok (bounded l req order)) ≡ ok r
    → WithinLimits limit r
normalize_cases l limit req r (err e) same n h = ground arith
normalize_cases l limit req r (ok order) same n h =
    let made : bounded l req order ≡ r = cc h in
    rw (sym made) (
      bounded-WithinLimits l limit req order same
        (normal_order_lem req.sort_order req.sort_by order n))

normalize-WithinLimits :
    (l : Limits) (limit : ℕ) (req r : SearchRequest)
    → l.max_count ≡ pos limit
    → normalize l req ≡ ok r
    → WithinLimits limit r
unfolding normalize
normalize-WithinLimits l limit req r same h =
    normalize_cases l limit req r (normal_order req.sort_order req.sort_by) same refl h

module _ ⦃R : Runtime⦄ where
  -- Whatever a client sends, if the limit is not negative, a request that is accepted starts at 1 or
  -- later, asks for no more than the limit and for no negative count, and names one of the two orders
  -- if it sorts.
  pub parse_search_request-WithinLimits :
      (l : Limits) (limit : ℕ) (values : Values) (r : SearchRequest)
      → l.max_count ≡ pos limit
      → parse_search_request l values ≡ ok r
      → WithinLimits limit r
  unfolding parse_search_request
  parse_search_request-WithinLimits l limit values r same h =
      let (start, read) = bind_ok (int_param values (bytes "startIndex") (pos 1)) _ r h in
      let (count, made) = bind_ok (int_param values (bytes "count") l.default_count) _ r read in
      normalize-WithinLimits l limit _ r same made
