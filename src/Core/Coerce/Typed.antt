-- ===== src/Core/Coerce/Typed.antt =====
-- pkg/core/attribute_type.go: what coercion gives is a value of the attribute's type.
use scim_go.Prelude.{Text, Bool, true, false, some, ◌≡◌, refl, arith, inl, inr, ◌⊎◌, ◌==◌}
use scim_go.Runtime.{Runtime}
use scim_go.Core.Kinds.{
  AttributeType, type_string, type_boolean, type_decimal, type_integer, type_date_time, type_binary,
  type_reference, type_complex, type_unset, type_eq,
}
use scim_go.Core.Value.{Value, null, text, boolean, number, int64, float64, instant}
use scim_go.Core.Attribute.{Attribute, traits}
use scim_go.Core.Coerce.{coerce_as, coerce, date_time, decimal, integer}

-- The values of each type, as Go holds them
unfoldable pub has_type : AttributeType → Value → Bool
has_type type_string (text s) = true
has_type type_reference (text s) = true
has_type type_binary (text s) = true
has_type type_boolean (boolean b) = true
has_type type_decimal (float64 f) = true
has_type type_integer (int64 n) = true
has_type type_date_time (instant t) = true
has_type _ _ = false

module _ ⦃R : Runtime⦄ where
  typed-date_time : (s : Text) (w : Value) → date_time s ≡ some w → has_type type_date_time w ≡ true
  unfolding date_time has_type
  typed-date_time s w e = ground arith

  typed-decimal : (v w : Value) → decimal v ≡ some w → has_type type_decimal w ≡ true
  unfolding decimal has_type
  typed-decimal (number s) w e = ground arith
  typed-decimal _ w e = ground arith

  typed-integer : (v w : Value) → integer v ≡ some w → has_type type_integer w ≡ true
  unfolding integer has_type
  typed-integer (number s) w e = ground arith
  typed-integer _ w e = ground arith

  typed-coerce_as : (k : AttributeType) (v w : Value) → coerce_as k v ≡ some w → has_type k w ≡ true
  unfolding coerce_as has_type
  typed-coerce_as type_decimal v w e = unfold has_type in typed-decimal v w e
  typed-coerce_as type_integer v w e = typed-integer v w e
  typed-coerce_as type_date_time (text s) w e = typed-date_time s w e
  typed-coerce_as type_date_time _ w e = ground arith
  typed-coerce_as type_string (text s) w e = ground arith
  typed-coerce_as type_string _ w e = ground arith
  typed-coerce_as type_reference (text s) w e = ground arith
  typed-coerce_as type_reference _ w e = ground arith
  typed-coerce_as type_binary (text s) w e = ground arith
  typed-coerce_as type_binary _ w e = ground arith
  typed-coerce_as type_boolean (boolean b) w e = ground arith
  typed-coerce_as type_boolean _ w e = ground arith
  typed-coerce_as type_complex _ w e = ground arith
  typed-coerce_as type_unset _ w e = ground arith

  stable-coerce_as :
      (k : AttributeType) (v w : Value)
      → (k == type_date_time) ≡ false
      → coerce_as k v ≡ some w
      → coerce_as k w ≡ some w
  unfolding coerce_as decimal integer type_eq
  stable-coerce_as type_decimal (number s) w d e = ground arith
  stable-coerce_as type_decimal _ w d e = ground arith
  stable-coerce_as type_integer (number s) w d e = ground arith
  stable-coerce_as type_integer _ w d e = ground arith
  stable-coerce_as type_date_time v w d e = cc
  stable-coerce_as type_string (text s) w d e = ground arith
  stable-coerce_as type_string _ w d e = ground arith
  stable-coerce_as type_reference (text s) w d e = ground arith
  stable-coerce_as type_reference _ w d e = ground arith
  stable-coerce_as type_binary (text s) w d e = ground arith
  stable-coerce_as type_binary _ w d e = ground arith
  stable-coerce_as type_boolean (boolean b) w d e = ground arith
  stable-coerce_as type_boolean _ w d e = ground arith
  stable-coerce_as type_complex _ w d e = ground arith
  stable-coerce_as type_unset _ w d e = ground arith

  coerce-typed :
      (a : Attribute) (w : Value) → coerce_as (traits a).kind w ≡ some w → coerce a w ≡ some w
  unfolding coerce
  coerce-typed a null e = refl
  coerce-typed a _ e = e

  -- What Coerce gives for an attribute is nil, or a value of the attribute's type; and but for a
  -- date it is stable: coerced once more it stays.
  pub coerce-is_typed :
      (a : Attribute) (v w : Value)
      → coerce a v ≡ some w
      → ((w ≡ null) ⊎ (has_type (traits a).kind w ≡ true))
        × (((traits a).kind == type_date_time) ≡ false → coerce a w ≡ some w)
  unfolding coerce
  coerce-is_typed a null w e = (inl (ground arith), λ d. ground arith)
  coerce-is_typed a v w e = (
    inr (typed-coerce_as (traits a).kind v w e),
    λ d. coerce-typed a w (stable-coerce_as (traits a).kind v w d e),
  )
