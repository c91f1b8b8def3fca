-- ===== src/Value/Identity.antt =====
-- internal/value/identity.go: the key of an element within a multi-valued attribute.
use scim_go.Prelude.{
  ℕ, suc, Text, Bool, Option, none, some, List, [], ◌∷◌, ◌++◌, ◌==◌, list_eq, nat_eq, bytes,
  if◌then◌else◌, ◌&&◌, not, ℤ, pos, negsuc,
}
use scim_go.Runtime.{Runtime, equal_fold}
use scim_go.Core.Kinds.{read_write, mutability_eq}
use scim_go.Core.Value.{Value, Object, null, text, boolean, number, int64, float64, instant}
use scim_go.Core.Attribute.{Attribute, traits, sub_attributes, sub_attribute}
use scim_go.Core.Object.{get}
use scim_go.Core.Coerce.{fold}
use scim_go.Etag.{format_int}
use scim_go.Value.{is_unassigned, hidden, value_key}
use scim_go.Value.Compare.{canonical}

-- What the code calls of strconv, time and encoding/json to write a value: strconv.Quote,
-- FormatFloat, the RFC 3339 form of an instant in UTC, and json.Marshal.
pub record Formats : Type 0 where
  pub quote : Text → Text
  pub format_float : ℕ → Text
  pub format_instant : ℤ → Text
  pub marshal : Value → Text

-- strconv.AppendInt
format_integer : ℤ → Text
format_integer (pos n) = format_int n
format_integer (negsuc n) = bytes "-" ++ format_int (suc n)

-- item.(string)
text_or_nil : Value → Text
text_or_nil (text s) = s
text_or_nil _ = []

-- normalizeZero: a float is its bits, and those of negative zero are 2^63.
unfoldable pub normalize_zero : ℕ → ℕ
normalize_zero f = if f == 9223372036854775808 then 0 else f

module _ ⦃F : Formats⦄ where
  -- the switch in the loop of identityKey
  unfoldable pub identity_part : Value → Text
  unfolding format_integer
  identity_part (text s) = F.quote s
  identity_part null = bytes "null"
  identity_part (boolean b) = if b then bytes "true" else bytes "false"
  identity_part (number s) = s
  identity_part (float64 f) = F.format_float (normalize_zero f)
  identity_part (int64 n) = format_integer n
  identity_part (instant t) = F.format_instant t
  identity_part v = F.marshal v

  -- identityKey
  unfoldable pub identity_key : List Value → Text
  identity_key [] = []
  identity_key (v ∷ vs) = identity_part v ++ (bytes "," ++ identity_key vs)

  module _ ⦃R : Runtime⦄ where
    -- the test of compositeIdentity
    unfoldable pub is_identifying : Attribute → Bool
    is_identifying sub =
        (traits sub).mutability == read_write
        && not (hidden none (some sub))
        && not (equal_fold (traits sub).name (bytes "primary"))

    -- the loop of compositeIdentity
    unfoldable pub composite_parts : Object → List Attribute → List Value
    unfolding is_identifying
    composite_parts element [] = []
    composite_parts element (sub ∷ subs) =
        let rest = composite_parts element subs in
        if is_identifying sub then canonical sub (get element (traits sub).name) ∷ rest else rest

    -- compositeIdentity
    unfoldable pub composite_identity : Attribute → Object → Text
    composite_identity a element = identity_key (composite_parts element (sub_attributes a))

    -- nil for a type that is unassigned
    assigned_type : Value → Value
    assigned_type typ = if is_unassigned typ then null else typ

    typed_identity : Option Attribute → Object → Value → Text
    unfolding assigned_type text_or_nil
    typed_identity none element folded = text_or_nil folded
    typed_identity (some kind) element folded =
        if (traits kind).mutability == read_write
        then identity_key (folded ∷ assigned_type (fold kind (get element (traits kind).name)) ∷ [])
        else text_or_nil folded

    -- Identity
    unfoldable pub identity : Attribute → Object → Text
    unfolding typed_identity
    identity a element = elim (sub_attribute a (bytes "value")) [
      | none ↦ composite_identity a element
      | some sub ↦ elim (value_key element) [
        | none ↦ []
        | some key ↦ typed_identity (sub_attribute a (bytes "type")) element (fold sub (text key))
      ]
    ]
