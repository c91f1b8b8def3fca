-- ===== src/Core/Coerce.antt =====
-- pkg/core/attribute_type.go and the second half of attribute.go: reading a decoded value at an
-- attribute's type, and folding it for a comparison. `none` is a coercion that fails.
pub mod Typed
use scim_go.Prelude.{
  Text, Bool, Option, none, some, ◌==◌, list_eq, nat_eq, bytes, any, leb, if◌then◌else◌, ◌&&◌, ◌||◌,
}
use scim_go.Runtime.{Runtime, equal_fold}
use scim_go.Username.{prepare}
use scim_go.Core.Kinds.{
  AttributeType, type_string, type_boolean, type_decimal, type_integer, type_date_time, type_binary,
  type_reference, type_eq,
}
use scim_go.Core.Value.{Value, null, text, boolean, number, int64, float64, instant}
use scim_go.Core.Attribute.{Attribute, traits}

module _ ⦃R : Runtime⦄ where
  -- dateTime
  date_time : Text → Option Value
  date_time s = elim (R.parse_zoned s) [
    | some t ↦ some (instant t)
    | none ↦ elim (R.parse_local s) [ some t ↦ some (instant t) | none ↦ none ]
  ]

  decimal : Value → Option Value
  decimal (number s) = elim (R.parse_float s) [ some f ↦ some (float64 f) | none ↦ none ]
  decimal (float64 f) = some (float64 f)
  decimal (int64 n) = some (float64 (R.float_of_int n))
  decimal _ = none

  integer : Value → Option Value
  integer (number s) = elim (R.parse_int s) [ some n ↦ some (int64 n) | none ↦ none ]
  integer (int64 n) = some (int64 n)
  integer (float64 f) = if R.is_whole f then some (int64 (R.int_of_float f)) else none
  integer _ = none

  is_base64 : Text → Bool
  is_base64 s = R.is_padded_base64 s || R.is_raw_base64 s

  -- AttributeType.coerce
  unfoldable pub coerce_as : AttributeType → Value → Option Value
  unfolding date_time decimal integer is_base64
  coerce_as type_string (text s) = some (text s)
  coerce_as type_reference (text s) = some (text s)
  coerce_as type_binary (text s) = if is_base64 s then some (text s) else none
  coerce_as type_boolean (boolean b) = some (boolean b)
  coerce_as type_decimal v = decimal v
  coerce_as type_integer v = integer v
  coerce_as type_date_time (text s) = date_time s
  coerce_as _ _ = none

  -- Attribute.Coerce: nil is a value of every type.
  unfoldable pub coerce : Attribute → Value → Option Value
  unfolding coerce_as
  coerce a null = some null
  coerce a v = coerce_as (traits a).kind v

  is_user_name : Attribute → Bool
  is_user_name a = (traits a).kind == type_string && equal_fold (traits a).name (bytes "userName")

  -- Some rune is not ASCII: some byte is 128 or more.
  has_rune_above_ascii : Text → Bool
  has_rune_above_ascii s = any (λ c. leb 128 c) s

  fold_case : Attribute → Text → Text
  fold_case a s = if (traits a).case_exact then s else R.to_lower s

  fold_text : Attribute → Text → Text
  unfolding fold_case
  fold_text a s =
      if is_user_name a && has_rune_above_ascii s
      then elim (prepare s (traits a).case_exact) [
        | some prepared ↦ prepared
        | none ↦ fold_case a s
      ]
      else fold_case a s

  -- Attribute.Fold
  unfoldable pub fold : Attribute → Value → Value
  unfolding fold_text is_user_name has_rune_above_ascii
  fold a (text s) =
      if (traits a).kind == type_binary || (traits a).kind == type_reference
      then text s
      else text (fold_text a s)
  fold a v = v
