-- ===== src/Store/Record.antt =====
-- pkg/store/record.go, document.go and relation.go: what goes in and out of a store.
use scim_go.Prelude.{
  ℕ, Text, none, some, List, [], ◌∷◌, ◌++◌, ◌==◌, list_eq, nat_eq, bytes, if◌then◌else◌, ◌&&◌,
}
use scim_go.Runtime.{Runtime}
use scim_go.Core.Value.{
  Value, Object, text, array, object, end, field, entries, fields, elements, items,
}
use scim_go.Core.Object.{get, set}
use scim_go.Store.Link.{Link}
use scim_go.Store.Reference
use scim_go.Store.Reference.{Reference}

-- Document
pub record Document : Type 0 where
  pub id : Text
  pub body : Text
  pub links : List Link
  pub references : List Reference

-- Relation
pub record Relation : Type 0 where
  pub reference : Reference
  pub id : Text
  pub kind : Text

-- Relation.kind
abbrev pub kind_of : Relation → Text
kind_of r = if r.kind == [] && Reference.inverse r.reference then bytes "direct" else r.kind

-- Relation.member
abbrev pub member : Relation → Value
member r = object (field (bytes "value") (text r.id) (field (bytes "type") (text (kind_of r)) end))

module _ ⦃R : Runtime⦄ where
  members_of : Value → List Value
  members_of (array vs) = elements vs
  members_of _ = []

  append_member : Object → Relation → Object
  unfolding members_of
  append_member holder r =
      set holder (Reference.name r.reference)
        (array (items (members_of (get holder (Reference.name r.reference)) ++ member r ∷ [])))

  -- the body of the loop of `Nest`, with the holder that `holder(object, true)` makes
  nest_one : Object → Relation → Object
  unfolding append_member
  nest_one o r = elim r.reference.extension [
    | none ↦ append_member o r
    | some s ↦ elim (get o s.id) [
      | object fs ↦ set o s.id (object (fields (append_member (entries fs) r)))
      | _ ↦ set o s.id (object (fields (append_member [] r)))
    ]
  ]

  -- Nest
  unfoldable pub nest : Object → List Relation → Object
  unfolding nest_one
  nest o [] = o
  nest o (r ∷ rs) = nest (nest_one o r) rs

-- Record
pub record Record : Type 0 where
  pub id : Text
  pub body : Text
  pub created : ℕ
  pub updated : ℕ
  pub version : Text
