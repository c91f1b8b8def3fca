-- ===== src/Patch/Patcher/Locked.antt =====
-- pkg/patch/patcher.go: no path leads to a read-only attribute.
use scim_go.Prelude.{
  Text, true, false, Option, none, some, [], ◌∷◌, ◌==◌, list_eq, nat_eq, ==_iff, if◌then◌else◌, ◌≡◌,
  refl, arith, Bool-cases, Option-cases, inl, inr, ap, ◌∙◌, ◌⊎◌, sym,
}
use scim_go.Runtime.{Runtime, equal_fold}
use scim_go.Errors.{ok, Result-cases}
use scim_go.Core.Kinds.{read_only, mutability_eq}
use scim_go.Core.Attribute.{Attribute, traits}
use scim_go.Core.Schemas.{Schema, Schemas, base, is_extension, lookup_schema, resolve}
use scim_go.Core.Schemas.Resolution.{resolve_fold}
use scim_go.Filter.Path.{AttrPath}
use scim_go.Filter.Node.{Node}
use scim_go.Patch.Gates.{gate}
use scim_go.Patch.Matcher.{Leftovers}
use scim_go.Patch.Target.{Target}
use scim_go.Patch.Patcher.{resolve_at, extension_of, compile_filter, find_target, name_path}
use scim_go.Patch.Frame.{is_read}
use scim_go.Patch.Kept.{Fixed, Misses}

module _ ⦃R : Runtime⦄ where
  -- A name of the base schema is read-only, and the schemas are well formed: the base schema is the
  -- one with its address, an extension has an id, which is not that name, and every attribute a name.
  pub record IsLocked (schemas : Schemas) (name : Text) : Type 0 where
    pub own : Attribute
    pub found : resolve schemas [] name [] ≡ some own
    pub locked : ((traits own).mutability == read_only) ≡ true
    pub one_base :
        (uri : Text) (s : Schema)
        → lookup_schema schemas uri ≡ some s
        → is_extension schemas s ≡ false
        → base schemas ≡ some s
    pub extension_ids :
        (uri : Text) (s : Schema)
        → lookup_schema schemas uri ≡ some s
        → is_extension schemas s ≡ true
        → ((s.id == []) ≡ false) × (equal_fold s.id name ≡ false)
    pub unnamed : (uri : Text) → resolve schemas uri [] [] ≡ none

  resolve_at-some :
      (schemas : Schemas) (path : AttrPath) (a : Attribute)
      → resolve_at schemas path ≡ ok a
      → (schemas ≡ []) ⊎ (resolve schemas path.uri path.name path.sub_attribute ≡ some a)
  unfolding resolve_at
  resolve_at-some [] path a e = inl refl
  resolve_at-some (s ∷ schemas) path a e =
      elim (Option-cases (resolve (s ∷ schemas) path.uri path.name path.sub_attribute)) [
        | inl m ↦ absurd (ground arith)
        | inr (b, m) ↦ inr (ground arith)
      ]

  resolve_schema :
      (schemas : Schemas) (u v name sub : Text)
      → lookup_schema schemas u ≡ lookup_schema schemas v
      → resolve schemas u name sub ≡ resolve schemas v name sub
  unfolding resolve
  resolve_schema schemas u v name sub h = elim (Option-cases (lookup_schema schemas v)) [
    | inl m ↦ ground arith
    | inr (s, m) ↦ ground arith
  ]

  lookup_schema-empty : (schemas : Schemas) → lookup_schema schemas [] ≡ base schemas
  unfolding lookup_schema list_eq
  lookup_schema-empty schemas = ground arith

  resolve-no_schemas : (name : Text) (a : Attribute) → ¬ (resolve [] [] name [] ≡ some a)
  unfolding resolve lookup_schema list_eq
  resolve-no_schemas name a h = cc

  module _ (schemas : Schemas) (name : Text) (lock : IsLocked schemas name) where
    -- Outside of the extensions, what is not read-only has another name.
    other_name :
        (uri n : Text) (a : Attribute)
        → lookup_schema schemas uri ≡ base schemas
        → resolve schemas uri n [] ≡ some a
        → ((traits a).mutability == read_only) ≡ false
        → equal_fold n name ≡ false
    other_name uri n a same found open_ = elim (Bool-cases (equal_fold n name)) [
      | inr other ↦ other
      | inl e ↦
          let found' : resolve schemas [] n [] ≡ some a =
            sym (resolve_schema schemas uri [] n [] (same ∙ sym (lookup_schema-empty schemas)))
            ∙ found in
          let same_fold : R.fold n ≡ R.fold name = (==_iff (R.fold n) (R.fold name)).0 e in
          absurd (
            ground (
              arith,
              lock.found,
              lock.locked,
              resolve_fold schemas [] [] n name [] [] refl same_fold refl,
            ))
    ]

    -- A path is about the base schema, or about an extension with another name.
    extension_cases :
        (path : AttrPath) (a : Attribute)
        → resolve schemas path.uri path.name [] ≡ some a
        → (extension_of schemas path ≡ []) × (lookup_schema schemas path.uri ≡ base schemas)
          ⊎ ((extension_of schemas path == []) ≡ false)
            × (equal_fold (extension_of schemas path) name ≡ false)
    unfolding extension_of
    extension_cases path a found = elim (Bool-cases (path.uri == [])) [
      | inl e ↦ inl (
        ground arith,
        ap (lookup_schema schemas) ((==_iff path.uri []).0 e) ∙ lookup_schema-empty schemas,
      )
      | inr e ↦ elim (Option-cases (lookup_schema schemas path.uri)) [
        | inl m ↦ absurd (unfold resolve in ground arith)
        | inr (s, m) ↦ elim (Bool-cases (is_extension schemas s)) [
          | inl y ↦ inr (
            ground (arith, lock.extension_ids path.uri s m y),
            ground (arith, lock.extension_ids path.uri s m y),
          )
          | inr n ↦ inl (ground arith, ground (arith, lock.one_base path.uri s m n))
        ]
      ]
    ]

    touches_other :
        (path : AttrPath) (a : Attribute)
        → resolve schemas path.uri path.name [] ≡ some a
        → ((traits a).mutability == read_only) ≡ false
        → equal_fold
            (if extension_of schemas path == [] then path.name else extension_of schemas path)
            name
          ≡ false
    touches_other path a found open_ = elim (extension_cases path a found) [
      | inl (e, same) ↦
          rw ((==_iff (extension_of schemas path) []).1 e)
            (other_name path.uri path.name a same found open_)
      | inr (e, other) ↦ rw e other
    ]

    module _ ⦃L : Leftovers⦄ where
      target_parent :
          (path : AttrPath) (f : Option Node) (t : Target)
          → find_target schemas path f ≡ ok t
          → (a : Attribute) × (resolve_at schemas (name_path path.uri path.name) ≡ ok a)
            × (((traits a).mutability == read_only) ≡ false)
            × (t.path ≡ path)
            × (t.extension ≡ extension_of schemas path)
      unfolding find_target gate
      target_parent path f t e =
          elim (Result-cases (resolve_at schemas (name_path path.uri path.name))) [
            | inl (x, m) ↦ absurd (ground arith)
            | inr (a, m) ↦ elim (Result-cases (compile_filter a f)) [
              | inl (x, n) ↦ absurd (ground arith)
              | inr (c, n) ↦ elim (Result-cases (resolve_at schemas path)) [
                | inl (x, p) ↦ absurd (ground arith)
                | inr (b, p) ↦ (a, m, ground arith, ground arith, ground arith)
              ]
            ]
          ]

      -- A target that is found misses the read-only name.
      pub find_target-Misses :
          (x : Fixed) (path : AttrPath) (f : Option Node) (t : Target)
          → x.name ≡ some name
          → find_target schemas path f ≡ ok t
          → Misses x t
      find_target-Misses x path f t same e =
          let (a, m, open_, at, ext) = target_parent path f t e in
          elim (resolve_at-some schemas (name_path path.uri path.name) a m) [
            | inl empty ↦ absurd (resolve-no_schemas name lock.own (rw empty at lock.found))
            | inr found ↦ record {
              named = elim (Bool-cases (t.path.name == [])) [
                | inr n ↦ ground arith
                | inl y ↦
                    let empty : path.name ≡ [] =
                      ap (λ (q : AttrPath). q.name) (sym at) ∙ (==_iff t.path.name []).0 y in
                    absurd (
                      ground (
                        arith,
                        lock.unnamed path.uri,
                        ap (λ n. resolve schemas path.uri n []) empty,
                      ))
              ];
              other = rw (at, ext, same) (unfold is_read in touches_other path a found open_);
            }
          ]
