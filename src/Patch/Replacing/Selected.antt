-- ===== src/Patch/Replacing/Selected.antt =====
-- pkg/patch/replacer.go and remover.go: what happens to the elements that a filter selects.
use scim_go.Prelude.{
  suc, any, take, drop, delete_func, ◌++◌, ◌||◌, ℕ, ◌+◌, ◌*◌, Text, Bool, true, false, some, List,
  [], ◌∷◌, list_eq, nat_eq, if◌then◌else◌, ◌≡◌, refl, arith, length, map, ap,
}
use scim_go.Runtime.{Runtime}
use scim_go.Errors.{ok, err, err_no_target, error_is, error_type_eq}
use scim_go.Core.Attribute.{Attribute}
use scim_go.Core.Object.{get}
use scim_go.Core.Value.{Value, null}
use scim_go.Value.Compare.{equal}
use scim_go.Patch.Budget.{Budget, charge}
use scim_go.Patch.Matcher.{Compiled}
use scim_go.Patch.Place.{container, list_of}
use scim_go.Patch.Target.{
  PatchState, Target, tally, selects, matches, member_places, found_members, members,
  target_elements, filtered_holders, holders_to_read,
}
use scim_go.Patch.Replacing.{
  is_null, keeps, substitute_loop, substitute, drop_matched, remove_values, removed_or_same,
  run_remover,
}

-- The elements with their hits, and those that were not hit, in their order
abbrev pub paired : List Value → List Bool → List (Value × Bool)
paired (v ∷ vs) (hit ∷ hits) = (v, hit) ∷ paired vs hits
paired _ _ = []

abbrev pub unselected : List Value → List Bool → List Value
unselected vs hits = map (λ p. p.0) (delete_func (λ (p : Value × Bool). p.1) (paired vs hits))

-- The position of the first hit
abbrev pub first_hit : List Bool → ℕ
first_hit [] = 0
first_hit (true ∷ hits) = 0
first_hit (false ∷ hits) = suc (first_hit hits)

-- The elements before the first hit, the new value, and the elements after it that were not hit
abbrev pub replaced_at : ℕ → Value → List Value → List Bool → List Value
replaced_at k w vs hits = take k vs ++ w ∷ unselected (drop (suc k) vs) (drop (suc k) hits)

module _ ⦃R : Runtime⦄ where
  substitute_loop-placed :
      (vs : List Value) (hits : List Bool) (w : Value)
      → substitute_loop vs hits w true ≡ unselected vs hits
  unfolding substitute_loop
  substitute_loop-placed [] hits w = refl
  substitute_loop-placed (v ∷ vs) [] w = refl
  substitute_loop-placed (v ∷ vs) (true ∷ hits) w = substitute_loop-placed vs hits w
  substitute_loop-placed (v ∷ vs) (false ∷ hits) w =
      ap (λ r. v ∷ r) (substitute_loop-placed vs hits w)

  substitute_loop-open :
      (vs : List Value) (hits : List Bool) (w : Value)
      → length hits ≡ length vs
      → any (λ h. h) hits ≡ true
      → substitute_loop vs hits w false ≡ replaced_at (first_hit hits) w vs hits
  unfolding substitute_loop
  substitute_loop-open vs [] w e h = absurd (ground (arith, h))
  substitute_loop-open [] (hit ∷ hits) w e h = absurd (omega arith)
  substitute_loop-open (v ∷ vs) (true ∷ hits) w e h =
      ap (λ r. w ∷ r) (substitute_loop-placed vs hits w)
  substitute_loop-open (v ∷ vs) (false ∷ hits) w e h =
      ap (λ r. v ∷ r) (substitute_loop-open vs hits w (omega arith) h)

  keeps-unselected :
      (a : Attribute) (vs : List Value) (hits : List Bool) (w : Value)
      → keeps a vs hits w ≡ any (λ v. equal a v w) (unselected vs hits)
  unfolding keeps
  keeps-unselected a [] hits w = refl
  keeps-unselected a (v ∷ vs) [] w = refl
  keeps-unselected a (v ∷ vs) (true ∷ hits) w = keeps-unselected a vs hits w
  keeps-unselected a (v ∷ vs) (false ∷ hits) w =
      ap (λ b. equal a v w || b) (keeps-unselected a vs hits w)

  -- Removing leaves the elements that were not selected. Replacing, where some element was selected, puts
  -- the new value once: in the place of the first that was selected, with the elements around it that
  -- were not; or nowhere, where one of those that were not selected equals it.
  pub substitute_lem :
      (a : Attribute) (vs : List Value) (hits : List Bool) (w : Value)
      → length hits ≡ length vs
      → any (λ h. h) hits ≡ true
      → (substitute a vs hits null ≡ unselected vs hits)
        × (is_null w ≡ false
            → substitute a vs hits w ≡ (
                if any (λ v. equal a v w) (unselected vs hits)
                then unselected vs hits
                else replaced_at (first_hit hits) w vs hits))
  unfolding substitute is_null
  substitute_lem a vs hits w e some_hit = (
    substitute_loop-placed vs hits null,
    λ h. ground (
      arith,
      keeps-unselected a vs hits w,
      substitute_loop-placed vs hits w,
      substitute_loop-open vs hits w e some_hit,
    ),
  )

  member_places-none :
      (name : Text) (i : ℕ) (vs : List Value) (hits : List Bool)
      → tally hits ≡ 0
      → member_places name i vs (some hits) ≡ []
  unfolding member_places tally
  member_places-none name i [] hits h = refl
  member_places-none name i (v ∷ vs) [] h = refl
  member_places-none name i (v ∷ vs) (true ∷ hits) h = absurd (omega (arith, h))
  member_places-none name i (v ∷ vs) (false ∷ hits) h =
      ground (arith, member_places-none name (i + 1) vs hits)

  matches-paid :
      (t : Target) (c : Compiled) (st : PatchState) (vs : List Value) (b : Budget)
      → charge st.budget (length vs * c.clauses) ≡ ok b
      → matches t c st vs ≡ ok (map (selects t c) vs, record st { budget = b })
  unfolding matches
  matches-paid t c st vs b paid = ground arith

  module _ (t : Target) (c : Compiled) (st : PatchState) (b : Budget) where
    drop_matched-none :
        tally (map (selects t c) (target_elements t st.root)) ≡ 0
        → charge st.budget (length (target_elements t st.root) * c.clauses) ≡ ok b
        → drop_matched t c st ≡ err err_no_target
    unfolding drop_matched
    drop_matched-none none_hit paid =
        ground (arith, matches-paid t c st (target_elements t st.root) b paid)

    holders_to_read-none :
        t.selector ≡ some c
        → tally (map (selects t c) (target_elements t st.root)) ≡ 0
        → charge st.budget (length (target_elements t st.root) * c.clauses) ≡ ok b
        → holders_to_read t st ≡ err err_no_target
    unfolding holders_to_read filtered_holders members found_members target_elements
    holders_to_read-none s none_hit paid =
        let vs = list_of (get (container st.root t.extension) t.path.name) in
        ground (
          arith,
          matches-paid t c st vs b paid,
          member_places-none t.path.name 0 vs (map (selects t c) vs),
        )

    remove_values-none :
        t.selector ≡ some c
        → tally (map (selects t c) (target_elements t st.root)) ≡ 0
        → charge st.budget (length (target_elements t st.root) * c.clauses) ≡ ok b
        → remove_values t st ≡ err err_no_target
    unfolding remove_values
    remove_values-none s none_hit paid =
        ground (arith, drop_matched-none none_hit paid, holders_to_read-none s none_hit paid)

  no_target-error_is : error_is err_no_target err_no_target ≡ true
  unfolding error_is error_type_eq nat_eq
  no_target-error_is = refl

  -- A remove whose filter selects no element, and whose cost the budget allows, succeeds: it leaves the
  -- resource as it was, forgets the indexes, and is paid for.
  pub run_remover-unmatched :
      (t : Target) (c : Compiled) (st : PatchState) (b : Budget)
      → t.selector ≡ some c
      → tally (map (selects t c) (target_elements t st.root)) ≡ 0
      → charge st.budget (length (target_elements t st.root) * c.clauses) ≡ ok b
      → run_remover t st ≡ ok (record st { budget = b; indexes = [] })
  unfolding run_remover removed_or_same
  run_remover-unmatched t c st b s none_hit paid =
      let cleared : PatchState = record st { indexes = [] } in
      ground (
        arith,
        remove_values-none t c cleared b s none_hit paid,
        no_target-error_is,
        matches-paid t c cleared (target_elements t st.root) b paid,
      )
