-- ===== src/Value/Sets/Refinement.antt =====
-- internal/value/set.go: a set answers as the list of the elements that were added.
use scim_go.Prelude.{
  Text, Bool, true, false, Option, none, some, List, [], ◌∷◌, ◌++◌, Eq, ◌==◌, list_eq, nat_eq,
  ==_iff, if◌then◌else◌, ◌&&◌, ◌||◌, not, any, get_or, is_some, ◌≡◌, refl, arith, Bool-cases, inl,
  inr,
}
use scim_go.Prelude.Dict.{Dict, lookup, insert, lookup-insert}
use scim_go.Runtime.{Runtime}
use scim_go.Core.Value.{Value, Object}
use scim_go.Core.Attribute.{Attribute}
use scim_go.Value.{as_object, object_or_nil}
use scim_go.Value.Compare.{equal}
use scim_go.Value.Identity.{Formats, identity}
use scim_go.Value.Sets.{
  ValueSet, keyed_by_identity, bucket_key, add_object, add_element, add_elements, new_set,
  find_object, contains_element,
}

-- A key that is not the empty one is added where it is not there.
module _ {K V : Type 0} ⦃e : Eq K⦄ where
  lookup-add_new :
      (empty k id : K) (v : V) (d : Dict K V)
      → is_some (lookup empty d) ≡ false
      → (k == empty || is_some (lookup k d)) ≡ true
      → is_some (lookup id d) ≡ (is_some (lookup id d) || (k == id && not (id == empty)))
  lookup-add_new empty k id v d h y = elim (Bool-cases (k == id)) [
    | inl same ↦ ground (arith, ==_iff k id, ==_iff k empty, ==_iff id empty)
    | inr other ↦ ground arith
  ]

  lookup-add_new_other :
      (empty k id : K) (v : V) (d : Dict K V)
      → is_some (lookup empty d) ≡ false
      → (k == empty || is_some (lookup k d)) ≡ false
      → is_some (lookup id (insert k v d))
        ≡ (is_some (lookup id d) || (k == id && not (id == empty)))
  lookup-add_new_other empty k id v d h n =
      rw (lookup-insert id k v d) (elim (Bool-cases (k == id)) [
        | inl same ↦ ground (arith, ==_iff k id, ==_iff k empty, ==_iff id empty)
        | inr other ↦ ground arith
      ])

module _ ⦃F : Formats⦄ ⦃R : Runtime⦄ where
  -- Two elements that are objects are the same by an identity that is not empty, others by the
  -- equality of values among those with one bucket.
  unfoldable pub is_named : Attribute → Text → Option Object → Bool
  is_named a id none = false
  is_named a id (some o) = identity a o == id && not (id == [])

  unfoldable pub same_element : Attribute → Value → Value → Bool
  same_element a want e =
      if keyed_by_identity a
      then is_named a (identity a (object_or_nil want)) (as_object e)
      else bucket_key a e == bucket_key a want && equal a e want

  add_object-of_attribute :
      (s : ValueSet) (o : Option Object) → (add_object s o).of_attribute ≡ s.of_attribute
  unfolding add_object
  add_object-of_attribute s none = refl
  add_object-of_attribute s (some o) = ground arith

  pub add_element-of_attribute :
      (s : ValueSet) (e : Value) → (add_element s e).of_attribute ≡ s.of_attribute
  unfolding add_element
  add_element-of_attribute s e = ground (arith, add_object-of_attribute s (as_object e))

  find-add_object :
      (s : ValueSet) (id : Text) (o : Option Object)
      → is_some (lookup [] s.objects) ≡ false
      → is_some (lookup id (add_object s o).objects)
        ≡ (is_some (lookup id s.objects) || is_named s.of_attribute id o)
  unfolding add_object is_named
  find-add_object s id none h = ground arith
  find-add_object s id (some o) h =
      let k = identity s.of_attribute o in
      elim (Bool-cases (k == [] || is_some (lookup k s.objects))) [
        | inl y ↦ rw y (lookup-add_new [] k id o s.objects h y)
        | inr n ↦ rw n (lookup-add_new_other [] k id o s.objects h n)
      ]

  is_named_empty : (a : Attribute) (o : Option Object) → is_named a [] o ≡ false
  unfolding is_named list_eq
  is_named_empty a none = refl
  is_named_empty a (some o) = ground arith

  -- The set holds nothing under the empty identity.
  unnamed_empty :
      (s : ValueSet) (e : Value)
      → is_some (lookup [] s.objects) ≡ false
      → is_some (lookup [] (add_element s e).objects) ≡ false
  unfolding add_element
  unnamed_empty s e h =
      ground
        (arith, find-add_object s [] (as_object e) h, is_named_empty s.of_attribute (as_object e))

  contains-add_element_keyed :
      (s : ValueSet) (e want : Value)
      → keyed_by_identity s.of_attribute ≡ true
      → is_some (lookup [] s.objects) ≡ false
      → contains_element (add_element s e) want
        ≡ (contains_element s want || same_element s.of_attribute want e)
  unfolding contains_element add_element find_object same_element
  contains-add_element_keyed s e want k h =
      let id = identity s.of_attribute (object_or_nil want) in
      ground (arith, find-add_object s id (as_object e) h, add_object-of_attribute s (as_object e))

  pub any-append :
      (p : Value → Bool) (vs : List Value) (v : Value) → any p (vs ++ v ∷ []) ≡ (any p vs || p v)
  any-append p [] v = ground arith
  any-append p (w ∷ vs) v = ground (arith, any-append p vs v)

  any_bucket :
      (p : Value → Bool) (k id : Text) (v : Value) (d : Dict Text (List Value))
      → any p (get_or (lookup id (insert k (get_or (lookup k d) [] ++ v ∷ []) d)) [])
        ≡ (any p (get_or (lookup id d) []) || (k == id && p v))
  any_bucket p k id v d =
      rw (lookup-insert id k (get_or (lookup k d) [] ++ v ∷ []) d) (elim (Bool-cases (k == id)) [
        | inl same ↦ ground (arith, ==_iff k id, any-append p (get_or (lookup k d) []) v)
        | inr other ↦ ground arith
      ])

  pub contains-add_element_bucket :
      (s : ValueSet) (e want : Value)
      → keyed_by_identity s.of_attribute ≡ false
      → contains_element (add_element s e) want
        ≡ (contains_element s want || same_element s.of_attribute want e)
  unfolding contains_element add_element same_element
  contains-add_element_bucket s e want k = ground (
    arith,
    any_bucket (λ element. equal s.of_attribute element want) (bucket_key s.of_attribute e)
        (bucket_key s.of_attribute want) e s.buckets,
  )

  -- One more element is contained, and nothing else changes.
  contains-add_element :
      (s : ValueSet) (e want : Value)
      → is_some (lookup [] s.objects) ≡ false
      → contains_element (add_element s e) want
        ≡ (contains_element s want || same_element s.of_attribute want e)
  contains-add_element s e want h = elim (Bool-cases (keyed_by_identity s.of_attribute)) [
    | inl k ↦ contains-add_element_keyed s e want k h
    | inr k ↦ contains-add_element_bucket s e want k
  ]

  contains-add_elements :
      (s : ValueSet) (es : List Value) (want : Value)
      → is_some (lookup [] s.objects) ≡ false
      → contains_element (add_elements s es) want
        ≡ (contains_element s want || any (same_element s.of_attribute want) es)
  unfolding add_elements
  contains-add_elements s [] want h = ground arith
  contains-add_elements s (e ∷ es) want h = ground (
    arith,
    contains-add_elements (add_element s e) es want (unnamed_empty s e h),
    contains-add_element s e want h,
    add_element-of_attribute s e,
  )

  pub contains-empty :
      (a : Attribute) (want : Value)
      → contains_element (record { of_attribute = a; objects = []; buckets = [] }) want ≡ false
  unfolding contains_element find_object lookup
  contains-empty a want = ground arith

  -- A set that NewSet fills contains a value exactly when one of the elements that it was given is
  -- the same: for an attribute with sub-attributes an object with the same identity, which is not
  -- empty, and for another an equal value with the same bucket.
  pub contains-new_set :
      (a : Attribute) (elements : List Value) (want : Value)
      → contains_element (new_set a elements) want ≡ any (same_element a want) elements
  unfolding new_set
  contains-new_set a elements want =
      let s : ValueSet = record { of_attribute = a; objects = []; buckets = [] } in
      ground (
        arith,
        contains-add_elements s elements want (unfold lookup in refl),
        contains-empty a want,
      )
