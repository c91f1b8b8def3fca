-- ===== src/Core.antt =====
-- pkg/core: values, objects, attributes and schemas.
pub mod Kinds
pub mod Value
pub mod Object
pub mod Attribute
pub mod Coerce
pub mod Schemas
pub mod Resources
