-- ===== src/Patch/Kept/Checks.antt =====
-- pkg/patch: the clauses that the filter of an operation checks, against the counter of a request.
use scim_go.Prelude.{
  ℕ, ◌+◌, ◌*◌, Bool, none, some, List, [], ◌==◌, list_eq, nat_eq, length, ◌≡◌, arith, Bool-cases,
  Option-cases, inl, inr,
}
use scim_go.Runtime.{Runtime}
use scim_go.Errors.{ok, Result-cases}
use scim_go.Core.Object.{get}
use scim_go.Core.Value.{Value, Object, null}
use scim_go.Value.Identity.{Formats}
use scim_go.Patch.Operation.{Kind}
use scim_go.Patch.Matcher.{Compiled}
use scim_go.Patch.Place.{container, list_of, made_container}
use scim_go.Patch.Target.{
  PatchState, Target, Holders, owner, matches, members, target_elements, filtered_holders,
  unmatched, holders_to_read, holders_to_write,
}
use scim_go.Patch.Writing.{child}
use scim_go.Patch.Writing.Primary.{get-nil}
use scim_go.Patch.Replacing.{
  rewrite, drop_matched, remove_held, remove_values, removed_or_same, run_remover, charge_output,
  replace_values, selects_values,
}
use scim_go.Patch.Write.{strip_read_only, write_holders, write_target}
use scim_go.Patch.Kept.Costs.{matches-cost, charge_output-cost, write_held-cost, write_target-cost}

module _ ⦃R : Runtime⦄ where
  remove_held-cost :
      (t : Target) (found : Holders × PatchState) (st' : PatchState)
      → remove_held t found ≡ ok st'
      → st'.budget ≡ found.1.budget
  unfolding remove_held
  remove_held-cost t found st' h = ground arith

module _ ⦃R : Runtime⦄ (t : Target) (c : Compiled) where
  -- The checks of one run of a filter
  abbrev pub checks : PatchState → ℕ
  checks st = length (target_elements t st.root) * c.clauses

  rewrite-cost :
      (vs : List Value) (hits : List Bool) (v : Value) (st st' : PatchState)
      → rewrite t vs hits v st ≡ ok st'
      → st'.budget ≡ st.budget
  unfolding rewrite
  rewrite-cost vs hits v st st' h = ground arith

  drop_matched-cost :
      (st st' : PatchState)
      → drop_matched t c st ≡ ok st'
      → st'.budget.spent ≡ st.budget.spent + checks st
  unfolding drop_matched
  drop_matched-cost st st' h =
      let vs = target_elements t st.root in
      elim (Result-cases (matches t c st vs)) [
        | inl (f, m) ↦ absurd (ground arith)
        | inr ((hits, s), m) ↦
            ground (arith, matches-cost t c st s vs hits m, rewrite-cost vs hits null s st')
      ]

  holders_to_read-cost :
      (st : PatchState) (found : Holders × PatchState)
      → t.selector ≡ some c
      → holders_to_read t st ≡ ok found
      → found.1.budget.spent ≡ st.budget.spent + checks st
  unfolding holders_to_read filtered_holders target_elements
  holders_to_read-cost st found s h =
      let vs = list_of (get (container st.root t.extension) t.path.name) in
      elim (Result-cases (matches t c st vs)) [
        | inl (f, m) ↦ absurd (ground arith)
        | inr ((hits, n), m) ↦ elim (Result-cases (members t.path.name vs (some hits))) [
          | inl (f, k) ↦ absurd (ground arith)
          | inr (places, k) ↦ ground (arith, matches-cost t c st n vs hits m)
        ]
      ]

  remove_values-cost :
      (st st' : PatchState)
      → t.selector ≡ some c
      → remove_values t st ≡ ok st'
      → st'.budget.spent ≡ st.budget.spent + checks st
  unfolding remove_values
  remove_values-cost st st' s h = elim (Bool-cases (t.path.sub_attribute == [])) [
    | inl y ↦ ground (arith, drop_matched-cost st st')
    | inr n ↦ elim (Result-cases (holders_to_read t st)) [
      | inl (f, m) ↦ absurd (ground arith)
      | inr (found, m) ↦
          ground (arith, holders_to_read-cost st found s m, remove_held-cost t found st')
    ]
  ]

  -- A remove by a filter that succeeds, whether it selects or not, pays for one run of the filter.
  pub run_remover-cost :
      (st st' : PatchState)
      → t.selector ≡ some c
      → run_remover t st ≡ ok st'
      → st'.budget.spent ≡ st.budget.spent + checks st
  unfolding run_remover removed_or_same
  run_remover-cost st st' s h =
      let cleared : PatchState = record st { indexes = [] } in
      let vs = target_elements t st.root in
      elim (Result-cases (remove_values t cleared)) [
        | inr (r, m) ↦ ground (arith, remove_values-cost cleared r s m)
        | inl (f, m) ↦ elim (Result-cases (matches t c cleared vs)) [
          | inl (g, n) ↦ absurd (ground arith)
          | inr ((hits, r), n) ↦ ground (arith, matches-cost t c cleared r vs hits n)
        ]
      ]

  -- The container that a write makes has the elements of the one that was there.
  elements-made_container :
      (o : Object) (made : Object × Object)
      → made_container o t.extension ≡ ok made
      → list_of (get made.1 t.path.name) ≡ list_of (get (container o t.extension) t.path.name)
  unfolding made_container container child
  elements-made_container o made h = elim (Bool-cases (t.extension == [])) [
    | inl y ↦ ground arith
    | inr n ↦ ground (arith, get-nil t.path.name)
  ]

  holders_to_write_filtered-cost :
      (st : PatchState) (found : Holders × PatchState)
      → t.selector ≡ some c
      → holders_to_write t st ≡ ok found
      → found.1.budget.spent ≡ st.budget.spent + checks st
  unfolding holders_to_write filtered_holders target_elements
  holders_to_write_filtered-cost st found s h =
      elim (Result-cases (made_container st.root t.extension)) [
        | inl (f, m) ↦ absurd (ground arith)
        | inr (made, m) ↦
            let st' : PatchState = record st { root = made.0 } in
            let vs = list_of (get made.1 t.path.name) in
            elim (Result-cases (matches t c st' vs)) [
              | inl (f, k) ↦ absurd (ground arith)
              | inr ((hits, n), k) ↦ elim (Result-cases (members t.path.name vs (some hits))) [
                | inl (f, j) ↦ absurd (ground arith)
                | inr (places, j) ↦ ground (
                  arith,
                  matches-cost t c st' n vs hits k,
                  elements-made_container st.root made m,
                )
              ]
            ]
      ]

  module _ ⦃F : Formats⦄ where
    replace_values-cost :
        (kind : Kind) (v : Value) (st st' : PatchState)
        → replace_values t c kind v st ≡ ok st'
        → st'.budget.spent ≡ st.budget.spent + checks st
    unfolding replace_values
    replace_values-cost kind v st st' h =
        let vs = target_elements t st.root in
        elim (Result-cases (matches t c st vs)) [
          | inl (f, m) ↦ absurd (ground arith)
          | inr ((hits, s), m) ↦ elim (Result-cases (charge_output s 1 v)) [
            | inl (f, n) ↦ absurd (ground arith)
            | inr (paid, n) ↦ ground (
              arith,
              matches-cost t c st s vs hits m,
              charge_output-cost s paid 1 v n,
              rewrite-cost vs hits v paid st',
            )
          ]
        ]

    write_holders-cost :
        (kind : Kind) (v : Value) (st st' : PatchState)
        → t.selector ≡ some c
        → write_holders t kind v st ≡ ok st'
        → st'.budget.spent ≡ st.budget.spent + checks st
    unfolding write_holders
    write_holders-cost kind v st st' s h =
        let stripped = strip_read_only (owner t) v in
        elim (Result-cases (holders_to_write t st)) [
          | inl (f, m) ↦ absurd (ground arith)
          | inr (found, m) ↦
              elim (Result-cases (charge_output found.1 (length found.0.places) stripped)) [
                | inl (f, n) ↦ absurd (ground arith)
                | inr (paid, n) ↦ ground (
                  arith,
                  holders_to_write_filtered-cost st found s m,
                  charge_output-cost found.1 paid (length found.0.places) stripped n,
                  write_held-cost t kind stripped found.0 paid st',
                )
              ]
        ]

    -- A write by a filter that succeeds pays for one run of the filter.
    pub write_filtered-cost :
        (kind : Kind) (v : Value) (st st' : PatchState)
        → t.selector ≡ some c
        → write_target t kind v st ≡ ok st'
        → st'.budget.spent ≡ st.budget.spent + checks st
    unfolding write_target
    write_filtered-cost kind v st st' s h = elim (Bool-cases (selects_values t st v)) [
      | inl y ↦ ground (arith, replace_values-cost kind v st st')
      | inr n ↦ ground (arith, write_holders-cost kind v st st' s)
    ]

-- The checks of the filter of a target, where it has one
unfoldable pub filter_checks : ⦃R : Runtime⦄ → Target → PatchState → ℕ
filter_checks t st = elim t.selector [ none ↦ 0 | some c ↦ checks t c st ]

module _ ⦃R : Runtime⦄ (t : Target) (st st' : PatchState) where
  run_remover_plain-cost :
      t.selector ≡ none → run_remover t st ≡ ok st' → st'.budget.spent ≡ st.budget.spent
  unfolding run_remover removed_or_same remove_values holders_to_read unmatched
  run_remover_plain-cost s h =
      let cleared : PatchState = record st { indexes = [] } in
      elim (Result-cases (holders_to_read t cleared)) [
        | inl (f, m) ↦ absurd (ground arith)
        | inr (found, m) ↦ ground (arith, remove_held-cost t found st')
      ]

  pub remove-cost :
      run_remover t st ≡ ok st' → st'.budget.spent ≡ st.budget.spent + filter_checks t st
  unfolding filter_checks
  remove-cost h = elim (Option-cases t.selector) [
    | inl s ↦ ground (arith, run_remover_plain-cost s h)
    | inr (c, s) ↦ ground (arith, run_remover-cost t c st st' s h)
  ]

  pub write-cost :
      ⦃F : Formats⦄
      → (kind : Kind) (v : Value) → write_target t kind v st ≡ ok st'
      → st'.budget.spent ≡ st.budget.spent + filter_checks t st
  unfolding filter_checks
  write-cost kind v h = elim (Option-cases t.selector) [
    | inl s ↦ ground (arith, write_target-cost t kind v st st' s h)
    | inr (c, s) ↦ ground (arith, write_filtered-cost t c kind v st st' s h)
  ]
