-- ===== src/Patch/Kept/Costs.antt =====
-- pkg/patch: what an operation adds to the counters of a request.
use scim_go.Prelude.{
  ℕ, ◌+◌, ◌*◌, Bool, none, List, [], ◌∷◌, list_eq, nat_eq, length, map, take, ◌≡◌, refl, arith, inl,
  inr,
}
use scim_go.Runtime.{Runtime}
use scim_go.Errors.{ok, Result-cases}
use scim_go.Core.Value.{Value}
use scim_go.Value.Identity.{Formats}
use scim_go.Value.{clone}
use scim_go.Patch.Operation.{Kind}
use scim_go.Patch.Budget.{charge, charge_bytes}
use scim_go.Patch.Matcher.{Compiled}
use scim_go.Patch.Place.{Place}
use scim_go.Patch.Target.{
  PatchState, Target, Holders, owner, selects, matches, target_elements, unmatched,
  holders_to_write, made_nested, put_container,
}
use scim_go.Patch.Writing.{demote}
use scim_go.Patch.ListAdd.{
  index_of, demote_at, put_elements, fresh_incoming, demote_primaries, demote_if_promoted,
  record_added,
}
use scim_go.Patch.Replacing.{charge_output}
use scim_go.Patch.Write.{
  strip_read_only, put_place, put, put_all, write_held, write_holders, write_target, written_at,
}

pub matches-cost :
    (t : Target) (c : Compiled) (st st' : PatchState) (vs : List Value) (hits : List Bool)
    → matches t c st vs ≡ ok (hits, st')
    → (hits ≡ map (selects t c) vs)
      × (st'.budget.spent ≡ st.budget.spent + length vs * c.clauses)
      × (st'.budget.output_spent ≡ st.budget.output_spent)
      × (st'.root ≡ st.root)
unfolding matches charge
matches-cost t c st st' vs hits h = ground arith

module _ ⦃F : Formats⦄ ⦃R : Runtime⦄ where
  pub charge_output-cost :
      (st st' : PatchState) (count : ℕ) (v : Value)
      → charge_output st count v ≡ ok st'
      → (st'.budget.output_spent ≡ st.budget.output_spent + count * length (F.marshal v))
        × (st'.budget.spent ≡ st.budget.spent)
  unfolding charge_output charge_bytes
  charge_output-cost st st' count v h = ground arith

  put-cost :
      (t : Target) (kind : Kind) (v : Value) (st st' : PatchState) (p : Place)
      → put t kind v st p ≡ ok st'
      → st'.budget ≡ st.budget
  unfolding put put_place
  put-cost t kind v st st' p h = ground arith

  put_all-cost :
      (t : Target) (kind : Kind) (v : Value) (st st' : PatchState) (places : List Place)
      → put_all t kind v st places ≡ ok st'
      → st'.budget ≡ st.budget
  unfolding put_all
  put_all-cost t kind v st st' [] h = ground arith
  put_all-cost t kind v st st' (p ∷ places) h = elim (Result-cases (put t kind (clone v) st p)) [
    | inl (f, m) ↦ absurd (ground arith)
    | inr (s, m) ↦
        ground (arith, put_all-cost t kind v s st' places, put-cost t kind (clone v) st s p m)
  ]

  put_elements-cost :
      (t : Target) (st : PatchState) (vs : List Value) → (put_elements t st vs).budget ≡ st.budget
  unfolding put_elements
  put_elements-cost t st [] = refl
  put_elements-cost t st (v ∷ vs) = refl

  fresh_incoming-cost :
      (t : Target) (kind : Kind) (v : Value) (st : PatchState)
      → (fresh_incoming t kind v st).1.budget ≡ st.budget
  unfolding fresh_incoming
  fresh_incoming-cost t kind v st = ground arith

  demote_if_promoted-cost :
      (t : Target) (kind : Kind) (before : ℕ) (written : ℕ → Bool) (v : Value) (st : PatchState)
      → (demote_if_promoted t kind before written v st).budget ≡ st.budget
  unfolding demote_if_promoted demote_primaries
  demote_if_promoted-cost t kind before written v st =
      let vs = target_elements t st.root in
      ground (
        arith,
        put_elements-cost t st
            (demote_at 0 (index_of t st.indexes (take before vs)).1.primaries vs),
        put_elements-cost t st (demote vs written),
      )

  record_added-cost :
      (t : Target) (kind : Kind) (before : ℕ) (v : Value) (st : PatchState)
      → (record_added t kind before v st).budget ≡ st.budget
  unfolding record_added
  record_added-cost t kind before v st = ground arith

  pub write_held-cost :
      (t : Target) (kind : Kind) (v : Value) (hs : Holders) (st st' : PatchState)
      → write_held t kind v hs st ≡ ok st'
      → st'.budget ≡ st.budget
  unfolding write_held
  write_held-cost t kind v hs st st' h =
      let fresh = fresh_incoming t kind v st in
      let before = length (target_elements t fresh.1.root) in
      let written = written_at t hs.matched before kind in
      elim (Result-cases (put_all t kind fresh.0 fresh.1 hs.places)) [
        | inl (f, m) ↦ absurd (ground arith)
        | inr (s, m) ↦ ground (
          arith,
          put_all-cost t kind fresh.0 fresh.1 s hs.places m,
          fresh_incoming-cost t kind v st,
          demote_if_promoted-cost t kind before written fresh.0 s,
          record_added-cost t kind before fresh.0
              (demote_if_promoted t kind before written fresh.0 s),
        )
      ]

  -- Where no filter selects the holders of a write, it has one.
  holders_to_write-cost :
      (t : Target) (st : PatchState) (found : Holders × PatchState)
      → t.selector ≡ none
      → holders_to_write t st ≡ ok found
      → (length found.0.places ≡ 1) × (found.1.budget ≡ st.budget)
  unfolding holders_to_write unmatched made_nested put_container
  holders_to_write-cost t st found s h = ground arith

  pub write_target-cost :
      (t : Target) (kind : Kind) (v : Value) (st st' : PatchState)
      → t.selector ≡ none
      → write_target t kind v st ≡ ok st'
      → (st'.budget.spent ≡ st.budget.spent)
        × (st'.budget.output_spent
            ≡ st.budget.output_spent + length (F.marshal (strip_read_only (owner t) v)))
  unfolding write_target write_holders
  write_target-cost t kind v st st' s h =
      let stripped = strip_read_only (owner t) v in
      elim (Result-cases (holders_to_write t st)) [
        | inl (f, m) ↦ absurd (ground arith)
        | inr (found, m) ↦
            let one = holders_to_write-cost t st found s m in
            elim (Result-cases (charge_output found.1 (length found.0.places) stripped)) [
              | inl (f, n) ↦ absurd (ground arith)
              | inr (paid, n) ↦ ground (
                arith,
                one,
                charge_output-cost found.1 paid (length found.0.places) stripped n,
                write_held-cost t kind stripped found.0 paid st',
              )
            ]
      ]
