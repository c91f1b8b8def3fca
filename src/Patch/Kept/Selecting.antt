-- ===== src/Patch/Kept/Selecting.antt =====
-- pkg/patch: filter_state.go, and the holders of target.go.
use scim_go.Prelude.{
  ℕ, ◌+◌, ◌*◌, Text, Bool, true, Option, none, some, List, [], ◌∷◌, ◌==◌, list_eq, nat_eq, ◌≡◌,
  ◌&&◌, refl, arith, Bool-cases, Option-cases, inl, inr, length,
}
use scim_go.Runtime.{Runtime}
use scim_go.Errors.{ok, Result-cases}
use scim_go.Core.Value.{Value, Object, fields, object, array}
use scim_go.Core.Object.{get}
use scim_go.Patch.Budget.{Budget, charge, charge_bytes}
use scim_go.Patch.Matcher.{Compiled}
use scim_go.Patch.Place.{Place, whole, nested, list_of, container, made_container}
use scim_go.Patch.Target.{
  PatchState, Target, Holders, target_key, is_object, matches, member_places, found_members,
  members, filtered_holders, unmatched, held_places, typed_holders, holders_to_read, put_container,
  made_nested, holders_to_write,
}
use scim_go.Patch.Writing.{child}
use scim_go.Patch.Frame.{AreUnder, read_at, get-child, get-made_container, get-set_other}
use scim_go.Patch.Kept.{Fixed, IsPaid, IsKept, Misses}

pub charge-IsPaid :
    (x : Fixed) (b b' : Budget) (n : ℕ) → IsPaid x b → charge b n ≡ ok b' → IsPaid x b'
unfolding charge
charge-IsPaid x b b' n p e = ground arith

pub charge_bytes-IsPaid :
    (x : Fixed) (b b' : Budget) (n : ℕ) → IsPaid x b → charge_bytes b n ≡ ok b' → IsPaid x b'
unfolding charge_bytes
charge_bytes-IsPaid x b b' n p e = ground arith

AreUnder-member_places :
    (name k : Text) (i : ℕ) (vs : List Value) (hits : Option (List Bool))
    → AreUnder name k (member_places name i vs hits)
unfolding member_places
AreUnder-member_places name k i [] none = tt
AreUnder-member_places name k i [] (some hits) = tt
AreUnder-member_places name k i (v ∷ vs) (some []) = tt
AreUnder-member_places name k i (v ∷ vs) none = elim (Bool-cases (is_object v)) [
  | inl y ↦ rw y (refl, AreUnder-member_places name k (i + 1) vs none)
  | inr n ↦ rw n (AreUnder-member_places name k (i + 1) vs none)
]
AreUnder-member_places name k i (v ∷ vs) (some (hit ∷ hits)) =
    elim (Bool-cases (is_object v && hit)) [
      | inl y ↦ rw y (refl, AreUnder-member_places name k (i + 1) vs (some hits))
      | inr n ↦ rw n (AreUnder-member_places name k (i + 1) vs (some hits))
    ]

found_members-ok : (found places : List Place) → found_members found ≡ ok places → places ≡ found
unfolding found_members
found_members-ok [] places e = cc
found_members-ok (p ∷ ps) places e = cc

AreUnder-members :
    (name k : Text) (vs : List Value) (hits : Option (List Bool)) (places : List Place)
    → members name vs hits ≡ ok places
    → AreUnder name k places
unfolding members
AreUnder-members name k vs hits places e =
    rw (found_members-ok (member_places name 0 vs hits) places e)
      (AreUnder-member_places name k 0 vs hits)

module _ ⦃R : Runtime⦄ (x : Fixed) where
  pub matches-IsKept :
      (t : Target) (c : Compiled) (st : PatchState) (vs : List Value) (r : List Bool × PatchState)
      → IsKept x st
      → matches t c st vs ≡ ok r
      → IsKept x r.1
  unfolding matches
  matches-IsKept t c st vs r k e = elim (Result-cases (charge st.budget (length vs * c.clauses))) [
    | inl (f, m) ↦ absurd (ground arith)
    | inr (b, m) ↦ ground (arith, charge-IsPaid x st.budget b (length vs * c.clauses))
  ]

  -- The holders of a target stand under its name, and finding them keeps the state.
  abbrev pub IsFound : Target → Holders × PatchState → Type 0
  IsFound t r = AreUnder t.path.name (target_key t) r.0.places × IsKept x r.1

  filtered_holders-IsFound :
      (t : Target) (c : Compiled) (o : Object) (st : PatchState) (r : Holders × PatchState)
      → IsKept x st
      → filtered_holders t c o st ≡ ok r
      → IsFound t r
  unfolding filtered_holders
  filtered_holders-IsFound t c o st r k e =
      let vs = list_of (get o t.path.name) in
      elim (Result-cases (matches t c st vs)) [
        | inl (f, m) ↦ absurd (ground arith)
        | inr (found, m) ↦ elim (Result-cases (members t.path.name vs (some found.0))) [
          | inl (f, n) ↦ absurd (ground arith)
          | inr (places, n) ↦
              let same : r ≡ (record { places = places; matched = found.0 }, found.1) =
                ground arith in
              rw same (
                AreUnder-members t.path.name (target_key t) vs (some found.0) places n,
                matches-IsKept t c st vs found k m,
              )
        ]
      ]

  held_places-AreUnder :
      (name k : Text) (v : Value) (places : List Place)
      → held_places name v ≡ ok places
      → AreUnder name k places
  unfolding held_places
  held_places-AreUnder name k (object fs) places e =
      let same : places ≡ nested name ∷ [] = cc in rw same (refl, tt)
  held_places-AreUnder name k (array vs) places e =
      AreUnder-members name k (list_of (array vs)) none places e
  held_places-AreUnder name k _ places e = let same : places ≡ [] = cc in rw same tt

  typed_holders-AreUnder :
      (t : Target) (o : Object) (places : List Place)
      → typed_holders t o ≡ ok places
      → AreUnder t.path.name (target_key t) places
  unfolding typed_holders
  typed_holders-AreUnder t o places e =
      held_places-AreUnder t.path.name (target_key t) (get o t.path.name) places e

  pub holders_to_read-IsFound :
      (t : Target) (st : PatchState) (r : Holders × PatchState)
      → IsKept x st
      → holders_to_read t st ≡ ok r
      → IsFound t r
  unfolding holders_to_read unmatched
  holders_to_read-IsFound t st r k e =
      let o = container st.root t.extension in
      elim (Option-cases t.selector) [
        | inr (c, m) ↦ filtered_holders-IsFound t c o st r k (ground arith)
        | inl m ↦ elim (Bool-cases (t.path.sub_attribute == [])) [
          | inl y ↦
              let same : r ≡ (record { places = whole ∷ []; matched = [] }, st) = ground arith in
              rw same ((unfold target_key in ground arith, tt), k)
          | inr n ↦ elim (Result-cases (typed_holders t o)) [
            | inl (f, p) ↦ absurd (ground arith)
            | inr (places, p) ↦
                let same : r ≡ (record { places = places; matched = [] }, st) = ground arith in
                rw same (typed_holders-AreUnder t o places p, k)
          ]
        ]
      ]

  put_container-reads :
      (t : Target) (st : PatchState) (root o : Object)
      → Misses x t
      → read_at x.name root ≡ x.held
      → ((t.extension == []) ≡ true → read_at x.name o ≡ x.held)
      → IsKept x st
      → IsKept x (put_container t st root o)
  unfolding put_container
  put_container-reads t st root o miss h w k = elim (Bool-cases (t.extension == [])) [
    | inl y ↦ ground (arith, w y)
    | inr n ↦ ground (arith, get-set_other x.name root t.extension (object (fields o)))
  ]

  made_nested-IsFound :
      (t : Target) (root o : Object) (st : PatchState) (r : Holders × PatchState)
      → Misses x t
      → read_at x.name root ≡ x.held
      → ((t.extension == []) ≡ true → o ≡ root)
      → IsKept x st
      → made_nested t root o st ≡ ok r
      → IsFound t r
  unfolding made_nested unmatched
  made_nested-IsFound t root o st r miss h w k e = elim (Result-cases (child o t.path.name)) [
    | inl (f, m) ↦ absurd (ground arith)
    | inr (made, m) ↦
        let same : r ≡ (
          record { places = nested t.path.name ∷ []; matched = [] },
          put_container t st root made.0,
        ) =
          ground arith in
        rw same (
          (refl, tt),
          put_container-reads t st root made.0 miss h
              (λ y. ground (arith, w y, get-child x.name o t.path.name made)) k,
        )
  ]

  pub holders_to_write-IsFound :
      (t : Target) (st : PatchState) (r : Holders × PatchState)
      → Misses x t
      → IsKept x st
      → holders_to_write t st ≡ ok r
      → IsFound t r
  unfolding holders_to_write unmatched
  holders_to_write-IsFound t st r miss k e =
      elim (Result-cases (made_container st.root t.extension)) [
        | inl (f, m) ↦ absurd (ground arith)
        | inr (made, m) ↦
            let kept = get-made_container x.name st.root t made miss.other m in
            let k' : IsKept x (record st { root = made.0 }) = ground (arith, kept.0) in
            elim (Option-cases t.selector) [
              | inr (c, n) ↦
                  filtered_holders-IsFound t c made.1 (record st { root = made.0 }) r k'
                    (ground arith)
              | inl n ↦ elim (Bool-cases (t.path.sub_attribute == [])) [
                | inl y ↦
                    let same : r ≡ (
                      record { places = whole ∷ []; matched = [] },
                      record st { root = made.0 },
                    ) =
                      ground arith in
                    rw same ((unfold target_key in ground arith, tt), k')
                | inr p ↦
                    made_nested-IsFound t made.0 made.1 (record st { root = made.0 }) r miss
                      k'.reads kept.1 k' (ground arith)
              ]
            ]
      ]
