-- ===== src/Memory/Query/Walk.antt =====
-- internal/memory/query.go: a client that asks for one page after the other.
use scim_go.Prelude.{
  ℕ, zero, suc, ◌+◌, ◌*◌, ◌≤◌, ◌<◌, List, [], ◌∷◌, ◌++◌, map, take, drop, length, pos, ◌≡◌, refl,
  arith, ap, sym, ◌∙◌,
}
use scim_go.Runtime.{Runtime}
use scim_go.Decode.{Json}
use scim_go.Store.Reference.{Reference}
use scim_go.Store.Record.{Record}
use scim_go.Protocol.{SearchRequest, offset, at_least_zero, at_least_one}
use scim_go.Memory.State.{Memory}
use scim_go.Memory.Operations.{record_of}
use scim_go.Memory.Query.{Row, page}
use scim_go.Memory.Query.Paging.{page_lem, take_split, drop_split, map_append}

-- The request for the page after the first `seen` rows
unfoldable pub page_after : SearchRequest → ℕ → SearchRequest
page_after request seen = record request { start_index = pos (suc seen) }

offset-page_after : (request : SearchRequest) (seen : ℕ) → offset (page_after request seen) ≡ seen
unfolding offset page_after at_least_one
offset-page_after request seen = omega arith

drop_all {ℓ} : {A : Type ℓ} (n : ℕ) (xs : List A) → length xs ≤ n → drop n xs ≡ []
drop_all zero [] h = refl
drop_all zero (x ∷ xs) h = absurd (omega arith)
drop_all (suc n) [] h = refl
drop_all (suc n) (x ∷ xs) h = drop_all n xs (omega arith)

le_times : (n c : ℕ) → 0 < c → n ≤ n * c
le_times zero c h = omega arith
le_times (suc n) c h =
    let size : suc n * c ≡ c + n * c = grind arith in
    let rest = le_times n c h in rw size (omega arith)

module _ ⦃R : Runtime⦄ ⦃J : Json⦄ (m : Memory) (request : SearchRequest)
    (references : List Reference) (rows : List Row) where
  -- So many pages, from the row after the first `seen`
  unfoldable pub walk : ℕ → ℕ → List Record
  walk seen zero = []
  walk seen (suc pages) =
      page m (page_after request seen) references rows
      ++ walk (seen + at_least_zero request.count) pages

  walk-take :
      (seen pages : ℕ)
      → walk seen pages
        ≡ map
            (λ (r : Row). record_of m r.id r.entry references)
            (take (pages * at_least_zero request.count) (drop seen rows))
  unfolding walk
  walk-take seen zero =
      let none_yet : 0 * at_least_zero request.count ≡ 0 = grind arith in rw none_yet refl
  walk-take seen (suc pages) =
      let f = λ (r : Row). record_of m r.id r.entry references in
      let c = at_least_zero request.count in
      let left = drop seen rows in
      let size : suc pages * c ≡ c + pages * c = grind arith in
      rw (page_lem m (page_after request seen) references rows) (
        rw (offset-page_after request seen) (
          rw (walk-take (seen + c) pages) (
            rw (drop_split seen c rows) (
              rw size (
                rw (take_split c (pages * c) left) (
                  unfold page_after in
                  sym (map_append f (take c left) (take (pages * c) (drop c left)))))))))

  take_all : (n : ℕ) (xs : List Row) → length xs ≤ n → take n xs ≡ xs
  take_all zero [] h = refl
  take_all zero (x ∷ xs) h = absurd (omega arith)
  take_all (suc n) [] h = refl
  take_all (suc n) (x ∷ xs) h = ap (λ r. x ∷ r) (take_all n xs (omega arith))

  -- A client that asks for one page after the other, from the first row on and with a count that is
  -- positive, has every row after as many requests as there are rows, or more, each once and in order.
  pub walk-length :
      (pages : ℕ)
      → 0 < at_least_zero request.count
      → length rows ≤ pages
      → walk 0 pages ≡ map (λ (r : Row). record_of m r.id r.entry references) rows
  walk-length pages positive enough =
      let c = at_least_zero request.count in
      let f = λ (r : Row). record_of m r.id r.entry references in
      walk-take 0 pages
      ∙ ap (map f) (take_all (pages * c) rows (omega (arith, le_times pages c positive)))
