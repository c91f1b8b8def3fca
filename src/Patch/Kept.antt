-- ===== src/Patch/Kept.antt =====
-- pkg/patch: the state of a request while it runs. What it has spent is within its caps, and one
-- name of the resource, where one is watched, reads as before.
pub mod Selecting
pub mod Removing
pub mod Costs
pub mod Checks
pub mod Putting
pub mod Writing
use scim_go.Prelude.{
  ℕ, Text, Bool, true, false, Option, none, some, List, [], ◌∷◌, ◌==◌, list_eq, nat_eq,
  if◌then◌else◌, ◌≡◌, refl, arith, Bool-cases, inl, inr, is_some, ◌&&◌,
}
use scim_go.Runtime.{Runtime, equal_fold}
use scim_go.Core.Value.{Value, Object}
use scim_go.Core.Object.{get}
use scim_go.Patch.Budget.{Budget, exceeds}
use scim_go.Patch.Target.{PatchState, Target}
use scim_go.Patch.Frame.{touched, read_at, is_read}

-- What does not change from one state to the next
pub record Fixed : Type 0 where
  pub name : Option Text
  pub held : Value
  pub max : ℕ
  pub max_output_bytes : ℕ

-- The costs are within the caps.
pub record IsPaid (x : Fixed) (b : Budget) : Type 0 where
  pub max : b.max ≡ x.max
  pub max_output_bytes : b.max_output_bytes ≡ x.max_output_bytes
  pub within : exceeds x.max b.spent ≡ false
  pub within_output : exceeds x.max_output_bytes b.output_spent ≡ false

module _ ⦃R : Runtime⦄ where
  pub record IsKept (x : Fixed) (st : PatchState) : Type 0 where
    pub paid : IsPaid x st.budget
    pub reads : read_at x.name st.root ≡ x.held

  -- The path of a target is about another name.
  pub record Misses (x : Fixed) (t : Target) : Type 0 where
    pub named : (is_some x.name && t.path.name == []) ≡ false
    pub other : is_read x.name (touched t) ≡ false
