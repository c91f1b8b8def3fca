-- ===== src/Patch/Kept/Removing.antt =====
-- pkg/patch: replacer.go and remover.go keep what a state promises.
use scim_go.Prelude.{
  ℕ, ◌*◌, Bool, false, List, [], ◌∷◌, ◌==◌, list_eq, nat_eq, ◌≡◌, refl, arith, Bool-cases,
  Option-cases, inl, inr, length, ◌∙◌,
}
use scim_go.Runtime.{Runtime}
use scim_go.Errors.{ok, ◌>>=◌, Result-cases}
use scim_go.Core.Value.{Value, Object, null, array, items}
use scim_go.Core.Object.{set, remove}
use scim_go.Value.Identity.{Formats}
use scim_go.Patch.Operation.{Kind, kind_eq}
use scim_go.Patch.Budget.{charge_bytes}
use scim_go.Patch.Gates.{gate_required, gate_immutable_write}
use scim_go.Patch.Matcher.{Compiled}
use scim_go.Patch.Place.{
  Place, whole, nested, element, read_place, write_place, container, with_container,
}
use scim_go.Patch.Target.{
  PatchState, Target, Holders, target_key, tally, matches, target_elements, holders_to_read,
}
use scim_go.Patch.Replacing.{
  substitute, rewrite, drop_matched, gate_removals, remove_at, remove_held, remove_values,
  removed_or_same, run_remover, charge_output, replace_values,
}
use scim_go.Patch.Frame.{
  AreUnder, IsUnder, read_at, is_read, get-remove_other, get-set_other, get-write_place,
  get-with_container, get-container, get-unassign_empty_extension,
}
use scim_go.Patch.Kept.{Fixed, IsKept, Misses}
use scim_go.Patch.Kept.Selecting.{
  charge_bytes-IsPaid, matches-IsKept, IsFound, holders_to_read-IsFound,
}

module _ ⦃R : Runtime⦄ (x : Fixed) (t : Target) (miss : Misses x t) where
  -- Another list under the name of the path
  pub put_list-IsKept :
      (st : PatchState) (v : Value)
      → IsKept x st
      → read_at x.name
          (with_container st.root t.extension (set (container st.root t.extension) t.path.name v))
        ≡ x.held
  put_list-IsKept st v k = ground (
    arith,
    get-with_container x.name st.root (set (container st.root t.extension) t.path.name v) t
        miss.other
        (λ e. ground (
          arith,
          get-container x.name st.root t e,
          get-set_other x.name (container st.root t.extension) t.path.name v,
        )),
  )

  rewrite-IsKept :
      (vs : List Value) (hits : List Bool) (incoming : Value) (st st' : PatchState)
      → IsKept x st
      → rewrite t vs hits incoming st ≡ ok st'
      → IsKept x st'
  unfolding rewrite
  rewrite-IsKept vs hits incoming st st' k e =
      let after = items (substitute t.own vs hits incoming) in
      elim (Result-cases (gate_immutable_write t.own (array (items vs)) (array after))) [
        | inl (f, m) ↦ absurd (ground arith)
        | inr (u, m) ↦ ground (arith, put_list-IsKept st (array after) k)
      ]

  drop_matched-IsKept :
      (c : Compiled) (st st' : PatchState)
      → IsKept x st
      → drop_matched t c st ≡ ok st'
      → IsKept x st'
  unfolding drop_matched
  drop_matched-IsKept c st st' k e =
      let vs = target_elements t st.root in
      elim (Result-cases (matches t c st vs)) [
        | inl (f, m) ↦ absurd (ground arith)
        | inr (found, m) ↦ elim (Result-cases (gate_required t.own (tally found.0 == length vs))) [
          | inl (f, n) ↦ absurd (ground arith)
          | inr (u, n) ↦
              rewrite-IsKept vs found.0 null found.1 st' (matches-IsKept x t c st vs found k m)
                (ground arith)
        ]
      ]

  get-removed_whole :
      (o : Object) (p : Place)
      → IsUnder t.path.name (target_key t) p
      → is_read x.name t.path.name ≡ false
      → p ≡ whole
      → read_at x.name (remove (read_place o p) (target_key t)) ≡ read_at x.name o
  unfolding read_place
  get-removed_whole o whole u h e = ground (arith, get-remove_other x.name o (target_key t), u)
  get-removed_whole o (nested n) u h e = absurd (ground arith)
  get-removed_whole o (element n i) u h e = absurd (ground arith)

  get-remove_at :
      (o : Object) (places : List Place)
      → AreUnder t.path.name (target_key t) places
      → is_read x.name t.path.name ≡ false
      → read_at x.name (remove_at t o places) ≡ read_at x.name o
  unfolding remove_at
  get-remove_at o [] u h = refl
  get-remove_at o (p ∷ places) u h =
      let removed = remove (read_place o p) (target_key t) in
      get-remove_at (write_place o p removed) places u.1 h
      ∙ get-write_place x.name o removed p t.path.name (target_key t) u.0 h
          (get-removed_whole o p u.0 h)

  remove_held-IsKept :
      (r : Holders × PatchState) (st' : PatchState)
      → IsFound x t r
      → remove_held t r ≡ ok st'
      → IsKept x st'
  unfolding remove_held
  remove_held-IsKept (hs, st) st' (u, k) e =
      let o = container st.root t.extension in
      let removed = remove_at t o hs.places in
      elim (Result-cases (gate_removals t o hs.places)) [
        | inl (f, m) ↦ absurd (ground arith)
        | inr (w, m) ↦ ground (
          arith,
          get-unassign_empty_extension x.name (with_container st.root t.extension removed) t
              miss.other,
          get-with_container x.name st.root removed t miss.other
              (λ y. ground (arith, get-container x.name st.root t y, get-remove_at o hs.places u)),
        )
      ]

  removed_found :
      (st st' : PatchState)
      → IsKept x st
      → (holders_to_read t st >>= remove_held t) ≡ ok st'
      → IsKept x st'
  removed_found st st' k e = elim (Result-cases (holders_to_read t st)) [
    | inl (f, m) ↦ absurd (ground arith)
    | inr (r, m) ↦ remove_held-IsKept r st' (holders_to_read-IsFound x t st r k m) (ground arith)
  ]

  remove_values-IsKept :
      (st st' : PatchState) → IsKept x st → remove_values t st ≡ ok st' → IsKept x st'
  unfolding remove_values
  remove_values-IsKept st st' k e = elim (Option-cases t.selector) [
    | inl m ↦ removed_found st st' k (ground arith)
    | inr (c, m) ↦ elim (Bool-cases (t.path.sub_attribute == [])) [
      | inl y ↦ drop_matched-IsKept c st st' k (ground arith)
      | inr n ↦ removed_found st st' k (ground arith)
    ]
  ]

  pub run_remover-IsKept :
      (st st' : PatchState) → IsKept x st → run_remover t st ≡ ok st' → IsKept x st'
  unfolding run_remover removed_or_same
  run_remover-IsKept st st' k e =
      let cleared = record st { indexes = [] } in
      let k' : IsKept x cleared = ground arith in
      elim (Result-cases (remove_values t cleared)) [
        | inr (s, m) ↦ ground (arith, remove_values-IsKept cleared s k' m)
        | inl (f, m) ↦ elim (Option-cases t.selector) [
          | inl n ↦ absurd (ground arith)
          | inr (c, n) ↦ elim (Result-cases (matches t c cleared (target_elements t st.root))) [
            | inl (g, p) ↦ absurd (ground arith)
            | inr (found, p) ↦
                ground (arith, matches-IsKept x t c cleared (target_elements t st.root) found k' p)
          ]
        ]
      ]

  pub charge_output-IsKept :
      ⦃F : Formats⦄ (st st' : PatchState) (n : ℕ) (v : Value)
      → IsKept x st
      → charge_output st n v ≡ ok st'
      → IsKept x st'
  unfolding charge_output
  charge_output-IsKept ⦃F⦄ st st' n v k e =
      let cost = n * length (F.marshal v) in
      elim (Result-cases (charge_bytes st.budget cost)) [
        | inl (f, m) ↦ absurd (ground arith)
        | inr (b, m) ↦ ground (arith, charge_bytes-IsPaid x st.budget b cost)
      ]

  pub replace_values-IsKept :
      ⦃F : Formats⦄ (c : Compiled) (kind : Kind) (v : Value) (st st' : PatchState)
      → IsKept x st
      → replace_values t c kind v st ≡ ok st'
      → IsKept x st'
  unfolding replace_values
  replace_values-IsKept c kind v st st' k e =
      let vs = target_elements t st.root in
      elim (Result-cases (matches t c st vs)) [
        | inl (f, m) ↦ absurd (ground arith)
        | inr (found, m) ↦ elim (Result-cases (charge_output found.1 1 v)) [
          | inl (f, n) ↦ absurd (ground arith)
          | inr (s, n) ↦
              rewrite-IsKept vs found.0 v s st'
                (charge_output-IsKept found.1 s 1 v (matches-IsKept x t c st vs found k m) n)
                (ground arith)
        ]
      ]
