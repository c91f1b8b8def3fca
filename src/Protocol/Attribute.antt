-- ===== src/Protocol/Attribute.antt =====
-- pkg/protocol/attribute.go: an attribute with the path that named it.
use scim_go.Prelude.{Text, Bool, false, Option, none, some, List, [], ◌∷◌, if◌then◌else◌, is_some}
use scim_go.Runtime.{Runtime}
use scim_go.Core.Attribute.{Attribute, traits, lookup_attribute, same_attribute}
use scim_go.Core.Schemas.{Schema, Schemas, extensions, resolve}
use scim_go.Filter.Path.{AttrPath}

-- Attribute, with the schemas that resolve it
pub record NamedAttribute : Type 0 where
  pub definition : Attribute
  pub path : AttrPath
  pub parent : Option Attribute
  pub schemas : Schemas

-- newAttribute
abbrev pub named : Schemas → Attribute → AttrPath → Option Attribute → NamedAttribute
named schemas definition path parent = record {
  definition = definition;
  path = path;
  parent = parent;
  schemas = schemas;
}

module _ ⦃R : Runtime⦄ where
  root_of : Attribute → Option Attribute → Option Attribute → Attribute
  root_of definition (some p) resolved = p
  root_of definition none (some r) = r
  root_of definition none none = definition

  -- Attribute.Root
  unfoldable pub root : NamedAttribute → Attribute
  unfolding root_of
  root a = root_of a.definition a.parent (resolve a.schemas a.path.uri a.path.name [])

  is_declared : Attribute → Option Attribute → Bool
  is_declared root none = false
  is_declared root (some found) = same_attribute found root

  declaring : Schemas → Attribute → Option Schema
  unfolding is_declared
  declaring [] root = none
  declaring (s ∷ schemas) root =
      let rest = declaring schemas root in
      if is_declared root (lookup_attribute s.attributes (traits root).name) then some s else rest

  -- Attribute.extension and InExtension
  unfoldable pub extension : NamedAttribute → Attribute → Option Schema
  unfolding declaring
  extension a root = declaring (extensions a.schemas) root

  unfoldable pub in_extension : NamedAttribute → Bool
  unfolding extension root
  in_extension a = is_some (extension a (root a))

  -- Attribute.Keys
  top_keys : NamedAttribute → Attribute → List Text
  unfolding extension
  top_keys a root =
      let own = (traits a.definition).name in
      let names =
        if same_attribute root a.definition then own ∷ [] else (traits root).name ∷ own ∷ [] in
      elim (extension a root) [ none ↦ names | some s ↦ s.id ∷ names ]

  unfoldable pub keys : NamedAttribute → List Text
  unfolding top_keys root
  keys a = elim a.parent [ some p ↦ (traits a.definition).name ∷ [] | none ↦ top_keys a (root a) ]
