-- ===== src/Memory/Query/Paging.antt =====
-- internal/memory/query.go: the pages of a listing.
use scim_go.Prelude.{
  ℕ, zero, suc, ◌+◌, ◌-◌, min, List, [], ◌∷◌, ◌++◌, map, take, drop, length, ◌≡◌, refl, arith, ap,
  sym, ◌∙◌, length-take, length-drop,
}
use scim_go.Runtime.{Runtime}
use scim_go.Decode.{Json}
use scim_go.Store.Reference.{Reference}
use scim_go.Protocol.{SearchRequest, offset, at_least_zero}
use scim_go.Memory.State.{Memory}
use scim_go.Memory.Operations.{record_of}
use scim_go.Memory.Query.{Row, page}

min-suc : (a b : ℕ) → min (suc a) (suc b) ≡ suc (min a b)
min-suc a b = omega arith

rest_suc : (a b : ℕ) → suc a - suc b ≡ a - b
rest_suc a b = omega arith

nothing_left : (k : ℕ) → min k 0 ≡ 0
nothing_left k = omega arith

none_left : (a b : ℕ) → a - min (suc b) a ≡ a - suc b
none_left a b = omega arith

plus_zero : (k : ℕ) → 0 + k ≡ k
plus_zero k = omega arith

plus_suc : (a b : ℕ) → suc a + b ≡ suc (a + b)
plus_suc a b = omega arith

zero_minus : (k : ℕ) → 0 - k ≡ 0
zero_minus k = omega arith

minus_zero : (k : ℕ) → k - min 0 k ≡ k
minus_zero k = omega arith

min_zero : (k : ℕ) → min 0 k ≡ 0
min_zero k = omega arith

module _ {ℓ} {A : Type ℓ} where
  take_nil : (k : ℕ) → take {A = A} k [] ≡ []
  take_nil zero = refl
  take_nil (suc k) = refl

  drop_nil : (k : ℕ) → drop {A = A} k [] ≡ []
  drop_nil zero = refl
  drop_nil (suc k) = refl

  take-min : (k : ℕ) (xs : List A) → take (min k (length xs)) xs ≡ take k xs
  take-min k [] = take_nil (min k 0) ∙ sym (take_nil k)
  take-min zero (x ∷ xs) = rw (min_zero (suc (length xs))) refl
  take-min (suc k) (x ∷ xs) = rw (min-suc k (length xs)) (ap (λ t. x ∷ t) (take-min k xs))

  -- Cutting at the ends of a list is cutting without them.
  take-drop-min :
      (n k : ℕ) (xs : List A)
      → take (min k (length xs - min n (length xs))) (drop (min n (length xs)) xs)
        ≡ take k (drop n xs)
  take-drop-min zero k xs = rw (minus_zero (length xs)) (rw (min_zero (length xs)) (take-min k xs))
  take-drop-min (suc n) k [] =
      ap (take (min k (0 - min (suc n) 0))) (drop_nil (min (suc n) 0))
      ∙ take_nil (min k (0 - min (suc n) 0))
      ∙ sym (take_nil k)
  take-drop-min (suc n) k (x ∷ xs) =
      rw (min-suc n (length xs))
        (rw (rest_suc (length xs) (min n (length xs))) (take-drop-min n k xs))

  pub take_split : (j k : ℕ) (xs : List A) → take (j + k) xs ≡ take j xs ++ take k (drop j xs)
  take_split zero k xs = rw (plus_zero k) refl
  take_split (suc j) k [] = take_nil (suc j + k) ∙ sym (take_nil k)
  take_split (suc j) k (x ∷ xs) = rw (plus_suc j k) (ap (λ t. x ∷ t) (take_split j k xs))

  pub drop_split : (j k : ℕ) (xs : List A) → drop (j + k) xs ≡ drop k (drop j xs)
  drop_split zero k xs = rw (plus_zero k) refl
  drop_split (suc j) k [] = drop_nil (suc j + k) ∙ sym (drop_nil k)
  drop_split (suc j) k (x ∷ xs) = rw (plus_suc j k) (drop_split j k xs)

pub map_append {ℓ κ} :
    {A : Type ℓ} {B : Type κ} (f : A → B) (xs ys : List A) → map f (xs ++ ys) ≡ map f xs ++ map f ys
map_append f [] ys = refl
map_append f (x ∷ xs) ys = ap (λ t. f x ∷ t) (map_append f xs ys)

length-map {ℓ κ} :
    {A : Type ℓ} {B : Type κ} (f : A → B) (xs : List A) → length (map f xs) ≡ length xs
length-map f [] = refl
length-map f (x ∷ xs) = ap suc (length-map f xs)

module _ ⦃R : Runtime⦄ ⦃J : Json⦄ where
  pub page_lem :
      (m : Memory) (request : SearchRequest) (references : List Reference) (rows : List Row)
      → page m request references rows
        ≡ map
            (λ (r : Row). record_of m r.id r.entry references)
            (take (at_least_zero request.count) (drop (offset request) rows))
  unfolding page
  page_lem m request references rows =
      rw (take-drop-min (offset request) (at_least_zero request.count) rows) refl

  -- Two pages, the second starting where the first ends, list what one page of both sizes lists.
  pub page-append :
      (m : Memory) (first next whole : SearchRequest) (references : List Reference)
      (rows : List Row)
      → offset next ≡ offset first + at_least_zero first.count
      → offset whole ≡ offset first
      → at_least_zero whole.count ≡ at_least_zero first.count + at_least_zero next.count
      → page m first references rows ++ page m next references rows ≡ page m whole references rows
  page-append m first next whole references rows follows starts size =
      let f = λ (r : Row). record_of m r.id r.entry references in
      let left = drop (offset first) rows in
      rw (page_lem m first references rows) (
        rw (page_lem m next references rows) (
          rw (page_lem m whole references rows) (
            rw (follows, starts, size)
              (rw (drop_split (offset first) (at_least_zero first.count) rows) (
                rw (take_split (at_least_zero first.count) (at_least_zero next.count) left) (
                  sym (
                    map_append f (take (at_least_zero first.count) left) (
                      take (at_least_zero next.count)
                        (drop (at_least_zero first.count) left)))))))))

  -- A page holds as many resources as the request asks for, or those that are left if they are
  -- fewer.
  pub length-page :
      (m : Memory) (request : SearchRequest) (references : List Reference) (rows : List Row)
      → length (page m request references rows)
        ≡ min (at_least_zero request.count) (length rows - offset request)
  length-page m request references rows =
      let f = λ (r : Row). record_of m r.id r.entry references in
      let left = drop (offset request) rows in
      rw (page_lem m request references rows) (
        length-map f (take (at_least_zero request.count) left)
        ∙ length-take (at_least_zero request.count) left
        ∙ ap (min (at_least_zero request.count)) (length-drop (offset request) rows))
