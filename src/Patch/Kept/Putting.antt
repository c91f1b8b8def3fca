-- ===== src/Patch/Kept/Putting.antt =====
-- pkg/patch: target.put keeps what a state promises.
use scim_go.Prelude.{
  false, List, [], ◌∷◌, ◌==◌, list_eq, nat_eq, ◌≡◌, refl, arith, Option-cases, inl, inr, ◌∙◌, ap,
}
use scim_go.Runtime.{Runtime}
use scim_go.Errors.{ok, Result-cases}
use scim_go.Core.Kinds.{type_eq}
use scim_go.Core.Value.{Value, Object, fields, object}
use scim_go.Core.Object.{get}
use scim_go.Value.{clone, object_or_nil}
use scim_go.Value.Identity.{Formats}
use scim_go.Patch.Operation.{Kind}
use scim_go.Patch.Merger.{merge}
use scim_go.Patch.Place.{Place, whole, nested, element, read_place, write_place, container}
use scim_go.Patch.Target.{PatchState, Target, target_key, target_elements}
use scim_go.Patch.ListAdd.{deduped_add, carry_forward}
use scim_go.Patch.Write.{overwritable, put_place, put_nested, put_value, put_in, put, put_all}
use scim_go.Patch.Writing.{shaped, set_value, appended, child}
use scim_go.Patch.Frame.{
  AreUnder, IsUnder, read_at, is_read, get-set_other, get-child, get-write_place,
  get-with_container, get-container,
}
use scim_go.Patch.Kept.{Fixed, IsKept, Misses}

module _ ⦃F : Formats⦄ ⦃R : Runtime⦄ (x : Fixed) (t : Target) (miss : Misses x t) where
  get-put_nested :
      (holder o : Object) (kind : Kind) (values : Object)
      → is_read x.name (target_key t) ≡ false
      → put_nested t holder kind values ≡ ok o
      → read_at x.name o ≡ read_at x.name holder
  unfolding put_nested
  get-put_nested holder o kind values h e = elim (Result-cases (child holder (target_key t))) [
    | inl (f, m) ↦ absurd (ground arith)
    | inr (made, m) ↦ elim (Result-cases (merge t.own kind made.1 values)) [
      | inl (f, n) ↦ absurd (ground arith)
      | inr (w, n) ↦ ground (
        arith,
        get-child x.name holder (target_key t) made h m,
        get-set_other x.name made.0 (target_key t) (object (fields w)) h,
      )
    ]
  ]

  get-put_value :
      (holder o : Object) (kind : Kind) (stored : List Value) (v : Value)
      → is_read x.name (target_key t) ≡ false
      → put_value t holder kind stored v ≡ ok o
      → read_at x.name o ≡ read_at x.name holder
  unfolding put_value set_value
  get-put_value holder o kind stored v h e =
      let held = get holder (target_key t) in
      let w = deduped_add t kind held (shaped t.own v) in
      elim (Result-cases (overwritable t holder kind w)) [
        | inl (f, m) ↦ absurd (ground arith)
        | inr (u, m) ↦ ground (
          arith,
          get-set_other x.name holder (target_key t)
              (appended held (carry_forward t.own kind stored w) kind) h,
        )
      ]

  get-put_in :
      (holder o : Object) (kind : Kind) (stored : List Value) (v : Value)
      → (target_key t == []) ≡ false
      → is_read x.name (target_key t) ≡ false
      → put_in t holder kind stored v ≡ ok o
      → read_at x.name o ≡ read_at x.name holder
  unfolding put_in
  get-put_in holder o kind stored v n h e = ground (
    arith,
    get-put_nested holder o kind (object_or_nil v) h,
    get-put_value holder o kind stored v h,
  )

  get-put_whole :
      (c o : Object) (p : Place) (kind : Kind) (stored : List Value) (v : Value)
      → IsUnder t.path.name (target_key t) p
      → is_read x.name t.path.name ≡ false
      → put_in t (read_place c p) kind stored v ≡ ok o
      → p ≡ whole
      → read_at x.name o ≡ read_at x.name c
  unfolding read_place read_at
  get-put_whole c o whole kind stored v u h e w = elim (Option-cases x.name) [
    | inl none_read ↦ rw none_read refl
    | inr (n, reads) ↦ get-put_in c o kind stored v (ground (arith, u, miss.named)) (rw u h) e
  ]
  get-put_whole c o (nested n) kind stored v u h e w = absurd (ground arith)
  get-put_whole c o (element n i) kind stored v u h e w = absurd (ground arith)

  put-IsKept :
      (kind : Kind) (v : Value) (st st' : PatchState) (p : Place)
      → IsUnder t.path.name (target_key t) p
      → IsKept x st
      → put t kind v st p ≡ ok st'
      → IsKept x st'
  unfolding put put_place
  put-IsKept kind v st st' p u k e =
      let c = container st.root t.extension in
      let stored = target_elements t st.root in
      elim (Result-cases (put_in t (read_place c p) kind stored v)) [
        | inl (f, m) ↦ absurd (ground arith)
        | inr (o, m) ↦ ground (
          arith,
          get-with_container x.name st.root (write_place c p o) t miss.other λ y.
              let h : is_read x.name t.path.name ≡ false = ground (arith, miss.other) in
              get-write_place x.name c o p t.path.name (target_key t) u h
                (get-put_whole c o p kind stored v u h m)
              ∙ ap (λ r. read_at x.name r) (get-container x.name st.root t y),
        )
      ]

  pub put_all-IsKept :
      (kind : Kind) (v : Value) (st st' : PatchState) (places : List Place)
      → AreUnder t.path.name (target_key t) places
      → IsKept x st
      → put_all t kind v st places ≡ ok st'
      → IsKept x st'
  unfolding put_all
  put_all-IsKept kind v st st' [] u k e = ground arith
  put_all-IsKept kind v st st' (p ∷ places) u k e =
      elim (Result-cases (put t kind (clone v) st p)) [
        | inl (f, m) ↦ absurd (ground arith)
        | inr (s, m) ↦
            put_all-IsKept kind v s st' places u.1 (put-IsKept kind (clone v) st s p u.0 k m)
              (ground arith)
      ]
