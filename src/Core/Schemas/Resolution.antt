-- ===== src/Core/Schemas/Resolution.antt =====
-- pkg/core/schemas.go: what Schemas.Resolve promises to its callers.
use scim_go.Prelude.{
  Text, some, List, [], ◌∷◌, ◌==◌, list_eq, nat_eq, ◌≡◌, refl, arith, inl, inr, Option-cases, ap,
  if◌then◌else◌,
}
use scim_go.Runtime.{Runtime}
use scim_go.Core.Attribute.{Attribute, traits, lookup_fold, sub_attributes}
use scim_go.Core.Schemas.{
  Schema, Schemas, lookup_schema, resolve_in, resolve_root, resolve, common_attributes,
}

module _ ⦃R : Runtime⦄ where
  lookup_fold_congr {ℓ} :
      {A : Type ℓ} (xs : List A) (s t : Text) (f : A → Text)
      → R.fold s ≡ R.fold t
      → lookup_fold xs s f ≡ lookup_fold xs t f
  unfolding lookup_fold
  lookup_fold_congr [] s t f h = refl
  lookup_fold_congr (x ∷ xs) s t f h = ground (arith, lookup_fold_congr xs s t f h)

  pub lookup_fold_name {ℓ} :
      {A : Type ℓ} (xs : List A) (t : Text) (f : A → Text) (x : A)
      → lookup_fold xs t f ≡ some x
      → R.fold (f x) ≡ R.fold t
  unfolding lookup_fold
  lookup_fold_name [] t f x h = cc
  lookup_fold_name (y ∷ xs) t f x h = ground (arith, lookup_fold_name xs t f x)

  nil_congr : (s t : Text) → R.fold s ≡ R.fold t → (s == []) ≡ (t == [])
  nil_congr s t h =
      ground (arith, R.fold-nil, R.fold-eq-nil s, R.fold-eq-nil t, ap R.fold {x = s} {y = t})

  lookup_schema_congr :
      (s : Schemas) (u v : Text) → R.fold u ≡ R.fold v → lookup_schema s u ≡ lookup_schema s v
  unfolding lookup_schema
  lookup_schema_congr s u v h =
      rw (nil_congr u v h, lookup_fold_congr s u v (λ schema. schema.id) h)

  resolve_root_congr :
      (s : Schemas) (schema : Schema) (m n : Text)
      → R.fold m ≡ R.fold n
      → resolve_root s schema m ≡ resolve_root s schema n
  unfolding resolve_root resolve_in
  resolve_root_congr s schema m n h = ground (
    arith,
    lookup_fold_congr schema.attributes m n (λ a. (traits a).name) h,
    lookup_fold_congr common_attributes m n (λ a. (traits a).name) h,
  )

  -- Names and schema URIs are case insensitive: the result depends only on how they fold.
  pub resolve_fold :
      (s : Schemas) (uri uri' name name' sub sub' : Text)
      → R.fold uri ≡ R.fold uri'
      → R.fold name ≡ R.fold name'
      → R.fold sub ≡ R.fold sub'
      → resolve s uri name sub ≡ resolve s uri' name' sub'
  unfolding resolve
  resolve_fold s uri uri' name name' sub sub' hu hn hs =
      elim (Option-cases (lookup_schema s uri')) [
        | inl e ↦ ground (arith, lookup_schema_congr s uri uri' hu)
        | inr (schema, e) ↦ elim (Option-cases (resolve_root s schema name')) [
          | inl f ↦
              ground (
                arith,
                lookup_schema_congr s uri uri' hu,
                resolve_root_congr s schema name name' hn,
              )
          | inr (a, f) ↦ ground (
            arith,
            lookup_schema_congr s uri uri' hu,
            resolve_root_congr s schema name name' hn,
            nil_congr sub sub' hs,
            lookup_fold_congr (sub_attributes a) sub sub' (λ b. (traits b).name) hs,
          )
        ]
      ]

  root_name :
      (s : Schemas) (schema : Schema) (name : Text) (a : Attribute)
      → resolve_root s schema name ≡ some a
      → R.fold (traits a).name ≡ R.fold name
  unfolding resolve_root resolve_in
  root_name s schema name a h = ground (
    arith,
    lookup_fold_name schema.attributes name (λ b. (traits b).name) a,
    lookup_fold_name common_attributes name (λ b. (traits b).name) a,
  )

  -- What is found bears the name that was asked, or the sub-attribute's where one was asked.
  pub resolve_name :
      (s : Schemas) (uri name sub : Text) (a : Attribute)
      → resolve s uri name sub ≡ some a
      → R.fold (traits a).name ≡ R.fold (if sub == [] then name else sub)
  unfolding resolve
  resolve_name s uri name sub a h = elim (Option-cases (lookup_schema s uri)) [
    | inl e ↦ ground arith
    | inr (schema, e) ↦ elim (Option-cases (resolve_root s schema name)) [
      | inl f ↦ ground arith
      | inr (b, f) ↦ ground (
        arith,
        root_name s schema name b,
        lookup_fold_name (sub_attributes b) sub (λ c. (traits c).name) a,
      )
    ]
  ]
