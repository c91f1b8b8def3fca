-- ===== src/Protocol/Projection/Hidden.antt =====
-- pkg/protocol/projection.go: an attribute whose "returned" is never, and one that is write-only, in
-- what a projection shows.
use scim_go.Prelude.{
  Text, Bool, true, false, Option, none, some, ◌||◌, ◌≡◌, ◌++◌, bytes, refl, Option-cases, inl, inr,
  arith, ◌==◌, ==_iff,
}
use scim_go.Runtime.{Runtime}
use scim_go.Core.Kinds.{returned_always, returned_never, returned_eq}
use scim_go.Core.Value.{Value, Items, Fields, array, object, nil, cons, end, field}
use scim_go.Core.Attribute.{
  Attribute, attribute, no_attributes, more_attributes, traits, sub_attribute, lookup_fold,
}
use scim_go.Value.{hidden, hides}
use scim_go.Protocol.Projection.{
  Projection, returns, returns_always, filled, kept, is_simple, always_fields, always_in,
  always_items, always_value, always, shown, shown_items, shown_fields,
}

-- A sub-attribute that is never returned goes by the name.
unfoldable pub is_never : Option Attribute → Bool
is_never none = false
is_never (some s) = (traits s).returned == returned_never

module _ ⦃R : Runtime⦄ where
  -- Some field of the object is a sub-attribute that is never returned.
  unfoldable pub leaks_field : Attribute → Fields → Bool
  unfolding is_never
  leaks_field a end = false
  leaks_field a (field k v fs) = is_never (sub_attribute a k) || leaks_field a fs

  -- the same for an element of a list, and for the list
  unfoldable pub leaks_object : Attribute → Value → Bool
  leaks_object a (object fs) = leaks_field a fs
  leaks_object a _ = false

  unfoldable pub leaks_item : Attribute → Items → Bool
  leaks_item a nil = false
  leaks_item a (cons v vs) = leaks_object a v || leaks_item a vs

  -- the same for the value of an attribute
  unfoldable pub leaks : Attribute → Value → Bool
  leaks a (array vs) = leaks_item a vs
  leaks a (object fs) = leaks_field a fs
  leaks a _ = false

  always-hidden : (a : Attribute) (v : Value) → hidden none (some a) ≡ true → always a v ≡ none
  unfolding always returns_always
  always-hidden a v h = ground arith

  -- What is hidden is not shown.
  pub shown-hidden :
      (p : Projection) (a : Attribute) (name : Text) (v : Value)
      → hidden none (some a) ≡ true
      → shown p a name v ≡ none
  unfolding shown returns
  shown-hidden p a name (array vs) h = ground (arith, always-hidden a (array vs) h)
  shown-hidden p a name (object fs) h = ground (arith, always-hidden a (object fs) h)
  shown-hidden p a name v h = ground (arith, always-hidden a v h)

  leaks_field-always_fields :
      (a : Attribute) (fs : Fields) → leaks_field a (always_fields a fs) ≡ false
  unfolding leaks_field always_fields is_never
  leaks_field-always_fields a end = refl
  leaks_field-always_fields a (field k v fs) = elim (Option-cases (sub_attribute a k)) [
    | inl m ↦ ground (arith, leaks_field-always_fields a fs)
    | inr (s, m) ↦ ground (
      arith,
      leaks_field-always_fields a fs,
      ==_iff (traits s).returned returned_always,
      ==_iff (traits s).returned returned_never,
    )
  ]

  leaks_object-filled :
      (a : Attribute) (fs : Fields) (v : Value)
      → leaks_field a fs ≡ false
      → filled fs ≡ some v
      → leaks_object a v ≡ false
  unfolding filled leaks_object leaks_field
  leaks_object-filled a end v h e = ground arith
  leaks_object-filled a (field k w fs) v h e = ground arith

  leaks-filled :
      (a : Attribute) (fs : Fields) (v : Value)
      → leaks_field a fs ≡ false
      → filled fs ≡ some v
      → leaks a v ≡ false
  unfolding filled leaks leaks_field
  leaks-filled a end v h e = ground arith
  leaks-filled a (field k w fs) v h e = ground arith

  leaks-kept :
      (a : Attribute) (vs : Items) (v : Value)
      → leaks_item a vs ≡ false
      → kept vs ≡ some v
      → leaks a v ≡ false
  unfolding kept leaks leaks_item
  leaks-kept a nil v h e = ground arith
  leaks-kept a (cons w vs) v h e = ground arith

  leaks_object-always_in :
      (a : Attribute) (v w : Value) → always_in a v ≡ some w → leaks_object a w ≡ false
  unfolding always_in
  leaks_object-always_in a (object fs) w e =
      leaks_object-filled a (always_fields a fs) w (leaks_field-always_fields a fs) e
  leaks_object-always_in a _ w e = ground arith

  leaks_item-always_items : (a : Attribute) (vs : Items) → leaks_item a (always_items a vs) ≡ false
  unfolding leaks_item always_items
  leaks_item-always_items a nil = refl
  leaks_item-always_items a (cons v vs) = elim (Option-cases (always_in a v)) [
    | inl m ↦ ground (arith, leaks_item-always_items a vs)
    | inr (w, m) ↦ ground (arith, leaks_item-always_items a vs, leaks_object-always_in a v w m)
  ]

  leaks-always_value : (a : Attribute) (v w : Value) → always_value a v ≡ some w → leaks a w ≡ false
  unfolding always_value always_in
  leaks-always_value a (array vs) w e =
      leaks-kept a (always_items a vs) w (leaks_item-always_items a vs) e
  leaks-always_value a (object fs) w e =
      leaks-filled a (always_fields a fs) w (leaks_field-always_fields a fs) e
  leaks-always_value a _ w e = ground arith

  leaks-always : (a : Attribute) (v w : Value) → always a v ≡ some w → leaks a w ≡ false
  unfolding always
  leaks-always a v w e = ground (arith, leaks-always_value a v w)

  leaks_field-shown_fields :
      (p : Projection) (a : Attribute) (name : Text) (fs : Fields)
      → leaks_field a (shown_fields p a name fs) ≡ false
  unfolding leaks_field shown_fields is_never hidden hides
  leaks_field-shown_fields p a name end = refl
  leaks_field-shown_fields p a name (field k v fs) = elim (Option-cases (sub_attribute a k)) [
    | inl m ↦ ground (arith, leaks_field-shown_fields p a name fs)
    | inr (s, m) ↦ ground (
      arith,
      leaks_field-shown_fields p a name fs,
      shown-hidden p s (name ++ bytes "." ++ R.to_lower (traits s).name) v,
    )
  ]

  leaks_item-shown_items :
      (p : Projection) (a : Attribute) (name : Text) (vs : Items)
      → leaks_item a (shown_items p a name vs) ≡ false
  unfolding leaks_item leaks_object shown_items
  leaks_item-shown_items p a name nil = refl
  leaks_item-shown_items p a name (cons (object fs) vs) =
      elim (Option-cases (filled (shown_fields p a name fs))) [
        | inl m ↦ ground (arith, leaks_item-shown_items p a name vs)
        | inr (w, m) ↦ ground (
          arith,
          leaks_item-shown_items p a name vs,
          leaks_object-filled a (shown_fields p a name fs) w (leaks_field-shown_fields p a name fs)
              m,
        )
      ]
  leaks_item-shown_items p a name (cons _ vs) = leaks_item-shown_items p a name vs

  leaks_field-is_simple :
      (a : Attribute) (fs : Fields) → is_simple a ≡ true → leaks_field a fs ≡ false
  unfolding leaks_field is_simple is_never lookup_fold
  leaks_field-is_simple a end h = refl
  leaks_field-is_simple (attribute t no_attributes) (field k v fs) h =
      leaks_field-is_simple (attribute t no_attributes) fs h
  leaks_field-is_simple (attribute t (more_attributes a rest)) (field k v fs) h = ground arith

  leaks_item-is_simple : (a : Attribute) (vs : Items) → is_simple a ≡ true → leaks_item a vs ≡ false
  unfolding leaks_item leaks_object
  leaks_item-is_simple a nil h = refl
  leaks_item-is_simple a (cons (object fs) vs) h =
      ground (arith, leaks_field-is_simple a fs h, leaks_item-is_simple a vs h)
  leaks_item-is_simple a (cons _ vs) h = leaks_item-is_simple a vs h

  -- What is shown of an attribute has no sub-attribute that is never returned.
  pub leaks-shown :
      (p : Projection) (a : Attribute) (name : Text) (v w : Value)
      → shown p a name v ≡ some w
      → leaks a w ≡ false
  unfolding shown leaks
  leaks-shown p a name (array vs) w e = ground (
    arith,
    leaks-always a (array vs) w,
    leaks_item-is_simple a vs,
    leaks-kept a (shown_items p a name vs) w (leaks_item-shown_items p a name vs),
  )
  leaks-shown p a name (object fs) w e = ground (
    arith,
    leaks-always a (object fs) w,
    leaks_field-is_simple a fs,
    leaks-filled a (shown_fields p a name fs) w (leaks_field-shown_fields p a name fs),
  )
  leaks-shown p a name v w e = ground (arith, leaks-always a v w)
