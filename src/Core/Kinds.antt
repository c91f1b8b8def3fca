-- ===== src/Core/Kinds.antt =====
-- pkg/core/core.go and attribute_type.go: the characteristics of an attribute. In Go these are
-- strings; `unset` is the empty one, which the zero Attribute has.
use scim_go.Prelude.{Eq}

-- AttributeType
pub data AttributeType : Type 0 where
  type_unset type_string type_boolean type_decimal type_integer : AttributeType
  type_date_time type_binary type_reference type_complex : AttributeType

-- Mutability
pub data Mutability : Type 0 where
  mutability_unset read_only read_write immutable write_only : Mutability

-- Returned
pub data Returned : Type 0 where
  returned_unset returned_always returned_never returned_default returned_request : Returned

-- Uniqueness
pub data Uniqueness : Type 0 where
  uniqueness_unset uniqueness_none uniqueness_server uniqueness_global : Uniqueness

AttributeType-discrete : Discrete AttributeType
AttributeType-discrete = hlevel

Mutability-discrete : Discrete Mutability
Mutability-discrete = hlevel

Returned-discrete : Discrete Returned
Returned-discrete = hlevel

Uniqueness-discrete : Discrete Uniqueness
Uniqueness-discrete = hlevel

instance unfoldable pub type_eq : Eq AttributeType
unfolding AttributeType-discrete
type_eq = record { dec = AttributeType-discrete }

instance unfoldable pub mutability_eq : Eq Mutability
unfolding Mutability-discrete
mutability_eq = record { dec = Mutability-discrete }

instance unfoldable pub returned_eq : Eq Returned
unfolding Returned-discrete
returned_eq = record { dec = Returned-discrete }

instance unfoldable pub uniqueness_eq : Eq Uniqueness
unfolding Uniqueness-discrete
uniqueness_eq = record { dec = Uniqueness-discrete }
