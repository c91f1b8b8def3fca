-- ===== src/Value/Sets/Distinct.antt =====
-- internal/value/set.go: what Unique keeps of a list.
use scim_go.Prelude.{
  Text, Bool, true, false, List, [], ◌∷◌, ◌++◌, ◌&&◌, not, any, ◌≡◌, refl, arith, Bool-cases, inl,
  inr, ap, ◌∙◌,
}
use scim_go.Prelude.Dict.{lookup}
use scim_go.Runtime.{Runtime}
use scim_go.Core.Value.{Value}
use scim_go.Core.Attribute.{Attribute}
use scim_go.Value.Identity.{Formats}
use scim_go.Value.Sets.{
  ValueSet, keyed_by_identity, add_element, add_elements, new_set, find_object, contains_element,
  held_under, promote_primary, unique_loop, kept_values, unique,
}
use scim_go.Value.Sets.Refinement.{
  same_element, contains-add_element_bucket, add_element-of_attribute, any-append, contains-empty,
}

module _ ⦃F : Formats⦄ ⦃R : Runtime⦄ where
  -- The elements that are the same as none before them, after those that were kept
  unfoldable pub deduped : Attribute → List Value → List Value → List Value
  deduped a kept [] = kept
  deduped a kept (v ∷ vs) = elim (any (same_element a v) kept) [
    | true ↦ deduped a kept vs
    | false ↦ deduped a (kept ++ v ∷ []) vs
  ]

  -- No element is the same as one before it.
  unfoldable pub are_distinct : Attribute → List Value → Bool
  are_distinct a [] = true
  are_distinct a (v ∷ vs) = not (any (λ w. same_element a w v) vs) && are_distinct a vs

  are_distinct-append :
      (a : Attribute) (vs : List Value) (v : Value)
      → are_distinct a (vs ++ v ∷ []) ≡ (are_distinct a vs && not (any (same_element a v) vs))
  unfolding are_distinct
  are_distinct-append a [] v = ground arith
  are_distinct-append a (w ∷ vs) v =
      ground (arith, are_distinct-append a vs v, any-append (λ u. same_element a u w) vs v)

  are_distinct-deduped :
      (a : Attribute) (kept vs : List Value)
      → are_distinct a kept ≡ true
      → are_distinct a (deduped a kept vs) ≡ true
  unfolding deduped
  are_distinct-deduped a kept [] d = d
  are_distinct-deduped a kept (v ∷ vs) d = elim (Bool-cases (any (same_element a v) kept)) [
    | inl y ↦ ground (arith, are_distinct-deduped a kept vs d)
    | inr n ↦
        let more : are_distinct a (kept ++ v ∷ []) ≡ true =
          ground (arith, are_distinct-append a kept v) in
        ground (arith, are_distinct-deduped a (kept ++ v ∷ []) vs more)
  ]

  kept_values-append :
      (kept : List (Text × Value)) (id : Text) (v : Value)
      → kept_values (kept ++ (id, v) ∷ []) ≡ kept_values kept ++ v ∷ []
  unfolding kept_values
  kept_values-append [] id v = refl
  kept_values-append ((k, w) ∷ kept) id v = ap (λ r. w ∷ r) (kept_values-append kept id v)

  promote_primary-nothing :
      (s : ValueSet) (kept : List (Text × Value)) (v : Value)
      → s.objects ≡ []
      → promote_primary s kept v ≡ (s, kept)
  unfolding promote_primary find_object lookup
  promote_primary-nothing s kept v h = ground arith

  add_element-objects :
      (s : ValueSet) (v : Value)
      → keyed_by_identity s.of_attribute ≡ false
      → (add_element s v).objects ≡ s.objects
  unfolding add_element
  add_element-objects s v k = ground arith

  -- A set of what was kept
  record Holds (a : Attribute) (s : ValueSet) (kept : List (Text × Value)) : Type 0 where
    of : s.of_attribute ≡ a
    none_keyed : s.objects ≡ []
    holds : (want : Value) → contains_element s want ≡ any (same_element a want) (kept_values kept)

  module _ (a : Attribute) (unkeyed : keyed_by_identity a ≡ false) where
    add_element-Holds :
        (s : ValueSet) (kept : List (Text × Value)) (id : Text) (v : Value)
        → Holds a s kept
        → Holds a (add_element s v) (kept ++ (id, v) ∷ [])
    add_element-Holds s kept id v h =
        let k : keyed_by_identity s.of_attribute ≡ false = ground (arith, h.of) in
        record {
          of = add_element-of_attribute s v ∙ h.of;
          none_keyed = add_element-objects s v k ∙ h.none_keyed;
          holds = λ want. ground (
            arith,
            contains-add_element_bucket s v want k,
            h.of,
            h.holds want,
            kept_values-append kept id v,
            any-append (same_element a want) (kept_values kept) v,
          );
        }

    unique_loop-deduped :
        (s : ValueSet) (kept : List (Text × Value)) (vs : List Value)
        → Holds a s kept
        → kept_values (unique_loop s kept vs) ≡ deduped a (kept_values kept) vs
    unfolding unique_loop deduped
    unique_loop-deduped s kept [] h = refl
    unique_loop-deduped s kept (v ∷ vs) h = elim (Bool-cases (contains_element s v)) [
      | inl y ↦ ground (
        arith,
        h.holds v,
        promote_primary-nothing s kept v h.none_keyed,
        unique_loop-deduped s kept vs h,
      )
      | inr n ↦
          let id = held_under s.of_attribute v in
          ground (
            arith,
            h.holds v,
            kept_values-append kept id v,
            unique_loop-deduped (add_element s v) (kept ++ (id, v) ∷ []) vs
                (add_element-Holds s kept id v h),
          )
    ]

    unique-deduped : (vs : List Value) → unique a vs ≡ deduped a [] vs
    unfolding unique deduped kept_values
    unique-deduped [] = refl
    unique-deduped (v ∷ []) = refl
    unique-deduped (v ∷ w ∷ vs) = unique_loop-deduped (new_set a []) [] (v ∷ w ∷ vs) (record {
      of = unfold new_set add_elements in refl;
      none_keyed = unfold new_set add_elements in refl;
      holds = λ want. unfold new_set add_elements kept_values in contains-empty a want;
    })

    -- For an attribute without sub-attributes, Unique keeps of a list the elements that are the same
    -- as none that was kept before them, so no two that it keeps are the same.
    pub are_distinct-unique :
        (vs : List Value) → (unique a vs ≡ deduped a [] vs) × (are_distinct a (unique a vs) ≡ true)
    are_distinct-unique vs = (
      unique-deduped vs,
      rw (unique-deduped vs) (are_distinct-deduped a [] vs (unfold are_distinct in refl)),
    )
