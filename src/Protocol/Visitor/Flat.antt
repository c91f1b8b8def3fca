-- ===== src/Protocol/Visitor/Flat.antt =====
-- pkg/core: schemas whose sub-attributes have no sub-attributes, as RFC 7643 Section 2.3.8 asks, and
-- the attributes that resolve in them.
use scim_go.Prelude.{
  Text, Bool, true, false, List, Option, none, some, [], ◌∷◌, list_eq, nat_eq, all, inl, inr, ◌≡◌,
  refl, arith, Option-cases,
}
use scim_go.Runtime.{Runtime}
use scim_go.Core.Attribute.{
  Attribute, traits, sub_attribute, sub_attributes, lookup_fold, new_attribute, with_subs,
  as_read_only, as_case_exact, as_multi_valued, returned_as,
}
use scim_go.Core.Schemas.{
  Schema, Schemas, resolve, resolve_root, resolve_in, lookup_schema, common_attributes,
}

module _ ⦃R : Runtime⦄ where
  lookup_fold-all :
      {A : Type 0} (p : A → Bool) (xs : List A) (name : Text) (name_of : A → Text) (x : A)
      → all p xs ≡ true
      → lookup_fold xs name name_of ≡ some x
      → p x ≡ true
  unfolding lookup_fold
  lookup_fold-all p [] name name_of x h found = absurd (ground arith)
  lookup_fold-all p (y ∷ xs) name name_of x h found =
      ground (arith, lookup_fold-all p xs name name_of x)

  -- No sub-attribute of the attribute has sub-attributes, as RFC 7643 Section 2.3.8 asks.
  abbrev pub is_empty : List Attribute → Bool
  is_empty [] = true
  is_empty (x ∷ xs) = false

  abbrev pub has_no_subs : Attribute → Bool
  has_no_subs a = is_empty (sub_attributes a)

  abbrev pub is_flat : Attribute → Bool
  is_flat a = all has_no_subs (sub_attributes a)

  abbrev pub is_flat_scope : Option Attribute → Bool
  is_flat_scope none = true
  is_flat_scope (some a) = is_flat a

  abbrev pub are_flat : Schemas → Bool
  are_flat schemas = all (λ (s : Schema). all is_flat s.attributes) schemas

  all-empty : (p : Attribute → Bool) (xs : List Attribute) → is_empty xs ≡ true → all p xs ≡ true
  all-empty p [] h = refl
  all-empty p (x ∷ xs) h = absurd (ground arith)

  lookup_fold-empty :
      (xs : List Attribute) (name : Text) (name_of : Attribute → Text)
      → is_empty xs ≡ true
      → lookup_fold xs name name_of ≡ none
  unfolding lookup_fold
  lookup_fold-empty [] name name_of h = refl
  lookup_fold-empty (x ∷ xs) name name_of h = absurd (ground arith)

  no_subs_flat : (a : Attribute) → has_no_subs a ≡ true → is_flat a ≡ true
  no_subs_flat a h = all-empty has_no_subs (sub_attributes a) h

  pub no_sub_value :
      (a : Attribute) (name : Text) → has_no_subs a ≡ true → sub_attribute a name ≡ none
  no_sub_value a name h = lookup_fold-empty (sub_attributes a) name (λ b. (traits b).name) h

  pub sub_flat :
      (a : Attribute) (name : Text) (b : Attribute)
      → is_flat a ≡ true
      → sub_attribute a name ≡ some b
      → has_no_subs b ≡ true
  sub_flat a name b h found =
      lookup_fold-all has_no_subs (sub_attributes a) name (λ c. (traits c).name) b h found

  common_flat : all is_flat common_attributes ≡ true
  unfolding common_attributes new_attribute with_subs as_read_only as_case_exact as_multi_valued
      returned_as
  common_flat = refl

  pub sub_is_flat :
      (a : Attribute) (name : Text) (b : Attribute)
      → is_flat a ≡ true
      → sub_attribute a name ≡ some b
      → is_flat b ≡ true
  sub_is_flat a name b h found = no_subs_flat b (sub_flat a name b h found)

  resolve_root-flat :
      (schemas : Schemas) (s : Schema) (name : Text) (a : Attribute)
      → all is_flat s.attributes ≡ true
      → resolve_root schemas s name ≡ some a
      → is_flat a ≡ true
  unfolding resolve_root resolve_in
  resolve_root-flat schemas s name a h found =
      let named_of = λ (b : Attribute). (traits b).name in
      elim (Option-cases (lookup_fold common_attributes name named_of)) [
        | inl n ↦ lookup_fold-all is_flat s.attributes name named_of a h (ground arith)
        | inr (c, n) ↦ ground (
          arith,
          lookup_fold-all is_flat common_attributes name named_of c common_flat n,
          lookup_fold-all is_flat s.attributes name named_of a h,
        )
      ]

  lookup_schema-flat :
      (schemas : Schemas) (uri : Text) (s : Schema)
      → are_flat schemas ≡ true
      → lookup_schema schemas uri ≡ some s
      → all is_flat s.attributes ≡ true
  unfolding lookup_schema
  lookup_schema-flat [] uri s h found = absurd (unfold lookup_fold in ground arith)
  lookup_schema-flat (b ∷ schemas) uri s h found = ground (
    arith,
    lookup_fold-all (λ (t : Schema). all is_flat t.attributes) (b ∷ schemas) uri (λ t. t.id) s h,
  )

  pub resolve-flat :
      (schemas : Schemas) (uri name sub : Text) (a : Attribute)
      → are_flat schemas ≡ true
      → resolve schemas uri name sub ≡ some a
      → is_flat a ≡ true
  unfolding resolve
  resolve-flat schemas uri name sub a h found = elim (Option-cases (lookup_schema schemas uri)) [
    | inl n ↦ absurd (ground arith)
    | inr (s, m) ↦ elim (Option-cases (resolve_root schemas s name)) [
      | inl n ↦ absurd (ground arith)
      | inr (b, n) ↦
          let flat = resolve_root-flat schemas s name b (lookup_schema-flat schemas uri s h m) n in
          ground (arith, flat, sub_is_flat b sub a flat)
    ]
  ]
