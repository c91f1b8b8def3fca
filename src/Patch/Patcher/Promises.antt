-- ===== src/Patch/Patcher/Promises.antt =====
-- pkg/patch/patch.go: what a whole PATCH request promises.
use scim_go.Prelude.{
  ℕ, ◌+◌, length, ◌≤◌, ◌<◌, Text, Option, none, some, List, [], list_eq, nat_eq, ◌≡◌, refl, arith,
  inl, inr,
}
use scim_go.Runtime.{Runtime}
use scim_go.Errors.{ok, Result-cases}
use scim_go.Core.Value.{Value, Object}
use scim_go.Core.Object.{get}
use scim_go.Core.Schemas.{Schemas}
use scim_go.Decode.{Json}
use scim_go.Value.Identity.{Formats}
use scim_go.Filter.Strings.{Strings}
use scim_go.Patch.Operation.{Kind, Operation}
use scim_go.Patch.Budget.{Budget, exceeds, default_budget, max_filter_evaluations, max_write_bytes}
use scim_go.Patch.Matcher.{Leftovers}
use scim_go.Patch.Target.{PatchState, Target, owner}
use scim_go.Patch.Write.{strip_read_only, write_target}
use scim_go.Patch.Replacing.{run_remover}
use scim_go.Patch.Kept.Costs.{write_target-cost}
use scim_go.Patch.Kept.Checks.{filter_checks, write-cost, remove-cost}
use scim_go.Patch.Patcher.{run_operations, apply}
use scim_go.Patch.Patcher.Locked.{IsLocked, find_target-Misses}
use scim_go.Patch.Patcher.Running.{AllMiss, run_operations-IsKept}
use scim_go.Patch.Frame.{read_at, is_read}
use scim_go.Patch.Kept.{Fixed, IsPaid, IsKept}

-- The budget of Apply with two options
unfoldable pub budget_of : ℕ → ℕ → Budget
budget_of max max_output_bytes =
    max_write_bytes max_output_bytes (max_filter_evaluations max default_budget)

-- Apply's patcher before its first operation
unfoldable pub start_of : ℕ → ℕ → Object → PatchState
start_of max max_output_bytes resource = record {
  root = resource;
  budget = budget_of max max_output_bytes;
  indexes = [];
}

abbrev fixed_of : ⦃R : Runtime⦄ → Option Text → ℕ → ℕ → Object → Fixed
fixed_of name max max_output_bytes resource = record {
  name = name;
  held = read_at name resource;
  max = max;
  max_output_bytes = max_output_bytes;
}

module _ ⦃R : Runtime⦄ ⦃L : Leftovers⦄ ⦃F : Formats⦄ ⦃S : Strings⦄ ⦃J : Json⦄ where
  started-IsKept :
      (schemas : Schemas) (name : Option Text) (max max_output_bytes : ℕ) (ops : List Operation)
      (resource : Object) (st : PatchState)
      → AllMiss schemas (fixed_of name max max_output_bytes resource)
      → run_operations schemas ops (start_of max max_output_bytes resource) ≡ ok st
      → IsKept (fixed_of name max max_output_bytes resource) st
  unfolding start_of budget_of max_write_bytes max_filter_evaluations default_budget exceeds
  started-IsKept schemas name max max_output_bytes ops resource st miss e =
      let x = fixed_of name max max_output_bytes resource in
      let start = start_of max max_output_bytes resource in
      let paid : IsPaid x start.budget = record {
        max = refl;
        max_output_bytes = refl;
        within = ground arith;
        within_output = ground arith;
      } in
      run_operations-IsKept schemas x miss ops start st (record { paid = paid; reads = refl }) e

  -- A PATCH request that succeeds leaves a read-only attribute of the base schema as it was, whatever
  -- its operations are and however they name their targets, where no extension has the address of the
  -- base schema, every extension has an id, which is not that name, and no attribute an empty name.
  pub apply-read_only :
      (schemas : Schemas) (name : Text) (max max_output_bytes : ℕ) (ops : List Operation)
      (resource resource' : Object)
      → IsLocked schemas name
      → apply schemas (budget_of max max_output_bytes) ops resource ≡ ok resource'
      → get resource' name ≡ get resource name
  unfolding apply start_of read_at
  apply-read_only schemas name max max_output_bytes ops resource resource' lock e =
      let x = fixed_of (some name) max max_output_bytes resource in
      elim (Result-cases (run_operations schemas ops (start_of max max_output_bytes resource))) [
        | inl (g, m) ↦ absurd (ground arith)
        | inr (st, m) ↦
            let kept =
              started-IsKept schemas (some name) max max_output_bytes ops resource st
                (λ path f t found. find_target-Misses schemas name lock x path f t refl found) m in
            ground (arith, kept.reads)
      ]

  -- A PATCH request that succeeds ends with counters that are within the caps of its options, where they
  -- set one. And the counters count what is done: a write or a remove that succeeds adds to the first
  -- the elements of its target times the clauses of the filter that selects among them, and nothing
  -- where there is no filter; and a write without a filter adds to the second the bytes of its value,
  -- without what is read-only.
  pub run_operations-le :
      (schemas : Schemas) (max max_output_bytes : ℕ) (ops : List Operation) (resource : Object)
      (st : PatchState) (t u p : Target) (kind : Kind) (v : Value) (s s' r r' q q' : PatchState)
      → run_operations schemas ops (start_of max max_output_bytes resource) ≡ ok st
      → write_target t kind v s ≡ ok s'
      → run_remover u r ≡ ok r'
      → p.selector ≡ none
      → write_target p kind v q ≡ ok q'
      → (0 < max → st.budget.spent ≤ max)
        × (0 < max_output_bytes → st.budget.output_spent ≤ max_output_bytes)
        × (s'.budget.spent ≡ s.budget.spent + filter_checks t s)
        × (r'.budget.spent ≡ r.budget.spent + filter_checks u r)
        × (q'.budget.output_spent
            ≡ q.budget.output_spent + length (F.marshal (strip_read_only (owner p) v)))
  unfolding exceeds is_read
  run_operations-le schemas max max_output_bytes ops resource st t u p kind v s s' r r' q q' e w m n
        b =
      let kept =
        started-IsKept schemas none max max_output_bytes ops resource st
          (λ path f t found. record { named = ground arith; other = refl }) e in
      (
        (λ h. ground (arith, kept.paid.within)),
        (λ h. ground (arith, kept.paid.within_output)),
        write-cost t s s' kind v w,
        remove-cost u r r' m,
        (write_target-cost p kind v q q' n b).1,
      )
