-- ===== src/Protocol/Projection/Disclosure.antt =====
-- pkg/protocol/projection.go: what a whole document that a projection prunes can disclose.
use scim_go.Prelude.{
  Text, Bool, true, false, Option, none, some, [], ◌∷◌, ◌||◌, ◌≡◌, refl, Option-cases, inl, inr,
  arith, any, Bool-cases, ap, ◌∙◌, ◌==◌, list_eq, nat_eq, if◌then◌else◌,
}
use scim_go.Runtime.{Runtime}
use scim_go.Core.Value.{Value, Fields, Object, object, end, field}
use scim_go.Core.Attribute.{Attribute, traits, lookup_attribute, lookup_fold}
use scim_go.Core.Schemas.{Schema, Schemas, lookup_schema, resolve}
use scim_go.Value.{hidden}
use scim_go.Protocol.Projection.{
  Projection, filled, shown, qualified_key, extension_fields, extension_value, project_with,
  project_in, project, projected,
}
use scim_go.Protocol.Projection.Hidden.{leaks, shown-hidden, leaks-shown}

module _ ⦃R : Runtime⦄ where
  -- The value of the attribute may not be shown, or a part of it may not.
  unfoldable pub discloses : Option Attribute → Value → Bool
  discloses none v = false
  discloses (some a) v = hidden none (some a) || leaks a v

  unfoldable pub discloses_field : Schema → Fields → Bool
  discloses_field schema end = false
  discloses_field schema (field k v fs) =
      discloses (lookup_attribute schema.attributes k) v || discloses_field schema fs

  unfoldable pub discloses_extension : Option Schema → Value → Bool
  discloses_extension (some schema) (object fs) = discloses_field schema fs
  discloses_extension _ _ = false

  -- the same for a field of the document, an attribute or an extension
  unfoldable pub discloses_entry : Schemas → Text → Value → Bool
  discloses_entry schemas key v = elim (resolve schemas [] key []) [
    | some a ↦ discloses (some a) v
    | none ↦ discloses_extension (lookup_schema schemas key) v
  ]

  discloses-shown :
      (p : Projection) (a : Attribute) (name : Text) (v w : Value)
      → shown p a name v ≡ some w
      → discloses (some a) w ≡ false
  unfolding discloses
  discloses-shown p a name v w e = elim (Bool-cases (hidden none (some a))) [
    | inl h ↦ ground (arith, shown-hidden p a name v h)
    | inr n ↦ ground (arith, leaks-shown p a name v w e)
  ]

  discloses_field-extension_fields :
      (p : Projection) (schema : Schema) (fs : Fields)
      → discloses_field schema (extension_fields p schema fs) ≡ false
  unfolding discloses_field extension_fields discloses
  discloses_field-extension_fields p schema end = refl
  discloses_field-extension_fields p schema (field k v fs) =
      elim (Option-cases (lookup_attribute schema.attributes k)) [
        | inl m ↦ ground (arith, discloses_field-extension_fields p schema fs)
        | inr (a, m) ↦ elim (Option-cases (shown p a (qualified_key schema.id (traits a).name) v)) [
          | inl n ↦ ground (arith, discloses_field-extension_fields p schema fs)
          | inr (w, e) ↦ ground (
            arith,
            discloses_field-extension_fields p schema fs,
            discloses-shown p a (qualified_key schema.id (traits a).name) v w e,
          )
        ]
      ]

  discloses_extension-filled :
      (schema : Schema) (fs : Fields) (w : Value)
      → discloses_field schema fs ≡ false
      → filled fs ≡ some w
      → discloses_extension (some schema) w ≡ false
  unfolding filled discloses_extension discloses_field
  discloses_extension-filled schema end w h e = ground arith
  discloses_extension-filled schema (field k v fs) w h e = ground arith

  discloses_extension-extension_value :
      (p : Projection) (schema : Schema) (v w : Value)
      → extension_value p schema v ≡ some w
      → discloses_extension (some schema) w ≡ false
  unfolding extension_value
  discloses_extension-extension_value p schema (object fs) w e =
      discloses_extension-filled schema (extension_fields p schema fs) w
        (discloses_field-extension_fields p schema fs) e
  discloses_extension-extension_value p schema _ w e = ground arith

  discloses_entry-project_with :
      (p : Projection) (base : Schema) (key : Text) (v w : Value)
      → project_with p base key v ≡ some w
      → discloses_entry p.schemas key w ≡ false
  unfolding project_with discloses_entry discloses_extension
  discloses_entry-project_with p base key v w e =
      elim (Option-cases (resolve p.schemas [] key [])) [
        | inr (a, m) ↦
            ground (arith, discloses-shown p a (qualified_key base.id (traits a).name) v w)
        | inl m ↦ elim (Option-cases (lookup_schema p.schemas key)) [
          | inl n ↦ ground arith
          | inr (schema, n) ↦ ground (arith, discloses_extension-extension_value p schema v w)
        ]
      ]

  none_either_way : (b : Bool) (o : Option Schema) → o ≡ none → (if b then o else none) ≡ none
  none_either_way true o h = h
  none_either_way false o h = refl

  lookup_schema-nil : (key : Text) → lookup_schema [] key ≡ none
  unfolding lookup_schema lookup_fold
  lookup_schema-nil key = none_either_way (key == []) none refl

  discloses_entry-no_schemas : (key : Text) (v : Value) → discloses_entry [] key v ≡ false
  unfolding discloses_entry discloses_extension resolve lookup_schema list_eq
  discloses_entry-no_schemas key v = ap (λ s. discloses_extension s v) (lookup_schema-nil key)

  discloses_entry-project_in :
      (p : Projection) (schemas : Schemas) (key : Text) (v w : Value)
      → p.schemas ≡ schemas
      → project_in p schemas key v ≡ some w
      → discloses_entry p.schemas key w ≡ false
  unfolding project_in
  discloses_entry-project_in p [] key v w h e =
      ap (λ s. discloses_entry s key w) h ∙ discloses_entry-no_schemas key w
  discloses_entry-project_in p (base ∷ rest) key v w h e =
      discloses_entry-project_with p base key v w e

  -- What is left of a document that a projection prunes has, in itself and in its extensions, no
  -- attribute that is write-only or never returned, and in the objects of its attributes no
  -- sub-attribute that is never returned.
  pub discloses-projected :
      (p : Projection) (document : Object)
      → any (λ e. discloses_entry p.schemas e.0 e.1) (projected p document) ≡ false
  unfolding projected project
  discloses-projected p [] = refl
  discloses-projected p ((key, v) ∷ document) = elim (Option-cases (project p key v)) [
    | inl m ↦ ground (arith, discloses-projected p document)
    | inr (w, e) ↦
        ground (
          arith,
          discloses-projected p document,
          discloses_entry-project_in p p.schemas key v w refl,
        )
  ]
