-- ===== src/Patch/Kept/Writing.antt =====
-- pkg/patch: target.write and list_add.go keep what a state promises.
use scim_go.Prelude.{
  ℕ, Bool, List, [], ◌∷◌, list_eq, nat_eq, ◌≡◌, arith, Bool-cases, Option-cases, inl, inr, length,
  take,
}
use scim_go.Runtime.{Runtime}
use scim_go.Errors.{ok, Result-cases}
use scim_go.Core.Kinds.{type_eq}
use scim_go.Core.Value.{Value, array, items}
use scim_go.Value.Identity.{Formats}
use scim_go.Patch.Operation.{Kind}
use scim_go.Patch.Target.{PatchState, Target, Holders, owner, target_elements, holders_to_write}
use scim_go.Patch.ListAdd.{
  put_elements, index_of, fresh_incoming, demote_at, demote_primaries, demote_if_promoted,
  record_added,
}
use scim_go.Patch.Replacing.{selects_values, charge_output}
use scim_go.Patch.Write.{
  written_at, strip_read_only, put_all, write_held, write_holders, write_target,
}
use scim_go.Patch.Writing.{demote}
use scim_go.Patch.Frame.{get-unassign_empty_extension}
use scim_go.Patch.Kept.{Fixed, IsKept, Misses}
use scim_go.Patch.Kept.Putting.{put_all-IsKept}
use scim_go.Patch.Kept.Selecting.{IsFound, holders_to_write-IsFound}
use scim_go.Patch.Kept.Removing.{put_list-IsKept, charge_output-IsKept, replace_values-IsKept}

module _ ⦃F : Formats⦄ ⦃R : Runtime⦄ (x : Fixed) (t : Target) (miss : Misses x t) where
  put_elements-IsKept :
      (st : PatchState) (vs : List Value) → IsKept x st → IsKept x (put_elements t st vs)
  unfolding put_elements
  put_elements-IsKept st [] k = k
  put_elements-IsKept st (v ∷ vs) k =
      ground (arith, put_list-IsKept x t miss st (array (items (v ∷ vs))) k)

  fresh_incoming-IsKept :
      (kind : Kind) (v : Value) (st : PatchState)
      → IsKept x st
      → IsKept x (fresh_incoming t kind v st).1
  unfolding fresh_incoming
  fresh_incoming-IsKept kind v st k = ground arith

  demote_primaries-IsKept :
      (before : ℕ) (st : PatchState) → IsKept x st → IsKept x (demote_primaries t before st)
  unfolding demote_primaries
  demote_primaries-IsKept before st k =
      let vs = target_elements t st.root in
      let found = index_of t st.indexes (take before vs) in
      ground (arith, put_elements-IsKept st (demote_at 0 found.1.primaries vs) k)

  demote_if_promoted-IsKept :
      (kind : Kind) (before : ℕ) (written : ℕ → Bool) (v : Value) (st : PatchState)
      → IsKept x st
      → IsKept x (demote_if_promoted t kind before written v st)
  unfolding demote_if_promoted
  demote_if_promoted-IsKept kind before written v st k = ground (
    arith,
    demote_primaries-IsKept before st k,
    put_elements-IsKept st (demote (target_elements t st.root) written) k,
  )

  record_added-IsKept :
      (kind : Kind) (before : ℕ) (v : Value) (st : PatchState)
      → IsKept x st
      → IsKept x (record_added t kind before v st)
  unfolding record_added
  record_added-IsKept kind before v st k = ground arith

  write_held-IsKept :
      (kind : Kind) (v : Value) (hs : Holders) (st st' : PatchState)
      → IsFound x t (hs, st)
      → write_held t kind v hs st ≡ ok st'
      → IsKept x st'
  unfolding write_held
  write_held-IsKept kind v hs st st' (u, k) e =
      let fresh = fresh_incoming t kind v st in
      let before = length (target_elements t fresh.1.root) in
      let written = written_at t hs.matched before kind in
      elim (Result-cases (put_all t kind fresh.0 fresh.1 hs.places)) [
        | inl (f, m) ↦ absurd (ground arith)
        | inr (s, m) ↦
            let k1 =
              put_all-IsKept x t miss kind fresh.0 fresh.1 s hs.places u
                (fresh_incoming-IsKept kind v st k) m in
            let k2 = demote_if_promoted-IsKept kind before written fresh.0 s k1 in
            let demoted = demote_if_promoted t kind before written fresh.0 s in
            ground (
              arith,
              record_added-IsKept kind before fresh.0 demoted k2,
              get-unassign_empty_extension x.name (record_added t kind before fresh.0 demoted).root
                  t miss.other,
            )
      ]

  write_holders-IsKept :
      (kind : Kind) (v : Value) (st st' : PatchState)
      → IsKept x st
      → write_holders t kind v st ≡ ok st'
      → IsKept x st'
  unfolding write_holders
  write_holders-IsKept kind v st st' k e =
      let stripped = strip_read_only (owner t) v in
      elim (Result-cases (holders_to_write t st)) [
        | inl (f, m) ↦ absurd (ground arith)
        | inr (r, m) ↦
            let found = holders_to_write-IsFound x t st r miss k m in
            elim (Result-cases (charge_output r.1 (length r.0.places) stripped)) [
              | inl (f, n) ↦ absurd (ground arith)
              | inr (s, n) ↦
                  write_held-IsKept kind stripped r.0 s st'
                    (
                      found.0,
                      charge_output-IsKept x t miss r.1 s (length r.0.places) stripped found.1 n,
                    )
                    (ground arith)
            ]
      ]

  pub write_target-IsKept :
      (kind : Kind) (v : Value) (st st' : PatchState)
      → IsKept x st
      → write_target t kind v st ≡ ok st'
      → IsKept x st'
  unfolding write_target
  write_target-IsKept kind v st st' k e = elim (Option-cases t.selector) [
    | inl m ↦ write_holders-IsKept kind v st st' k (ground arith)
    | inr (c, m) ↦ elim (Bool-cases (selects_values t st v)) [
      | inl y ↦ replace_values-IsKept x t miss c kind v st st' k (ground arith)
      | inr n ↦ write_holders-IsKept kind v st st' k (ground arith)
    ]
  ]
