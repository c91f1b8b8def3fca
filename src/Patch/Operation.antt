-- ===== src/Patch/Operation.antt =====
-- pkg/patch/operation.go: one modification of a PATCH request, and the attribute that stands for
-- any where there is no schema.
use scim_go.Prelude.{
  Text, Bool, Option, none, some, [], ◌==◌, list_eq, nat_eq, bytes, not, ◌&&◌, if◌then◌else◌, Eq,
}
use scim_go.Runtime.{Runtime}
use scim_go.Core.Attribute.{
  Attribute, attribute, no_attributes, zero_traits, same_attribute, sub_attribute,
}

-- Op, of the three that have a name
pub data Kind : Type 0 where
  op_add op_remove op_replace : Kind

Kind-discrete : Discrete Kind
Kind-discrete = hlevel

instance unfoldable pub kind_eq : Eq Kind
unfolding Kind-discrete
kind_eq = record { dec = Kind-discrete }

pub record Operation : Type 0 where
  pub op : Text
  pub path : Text
  pub value : Text

-- permissiveAttr. Its address is that of no other attribute.
abbrev pub permissive : Attribute
permissive = attribute (zero_traits 0) no_attributes

abbrev pub is_permissive : Attribute → Bool
is_permissive a = same_attribute a permissive

module _ ⦃R : Runtime⦄ where
  -- the switch of patcher.apply
  unfoldable pub kind_of : Text → Option Kind
  kind_of op =
      let s = R.to_lower op in
      if s == bytes "add"
      then some op_add
      else if s == bytes "replace"
      then some op_replace
      else if s == bytes "remove"
      then some op_remove
      else none

  -- Operation.hasValue
  unfoldable pub has_value : Operation → Bool
  has_value o = not (o.value == []) && not (R.trim_space o.value == bytes "null")

  -- subAttr
  unfoldable pub sub_or_permissive : Attribute → Text → Attribute
  sub_or_permissive parent name = elim (sub_attribute parent name) [
    | none ↦ permissive
    | some sub ↦ sub
  ]
