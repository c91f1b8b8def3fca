-- ===== src/Protocol/Projection/Names/Exclusive.antt =====
-- pkg/protocol/projection.go: what the lists of names of a new projection hold.
use scim_go.Prelude.{
  Text, Bool, true, false, Option, none, some, List, [], ◌∷◌, ◌++◌, ◌==◌, list_eq, nat_eq, ==_iff,
  ◌&&◌, not, contains, ◌≡◌, refl, arith, Bool-cases, ◌⊎◌, inl, inr,
}
use scim_go.Runtime.{Runtime}
use scim_go.Errors.{ok, Result-cases}
use scim_go.Core.Schemas.{Schemas}
use scim_go.Protocol.Projection.{Projection}
use scim_go.Protocol.Projection.Names.{
  check_attributes, add_name, qualify_name, qualify_from, qualify, some_names, names_or_nil,
  new_projection,
}

-- Every name stands once in the list.
unfoldable pub distinct : List Text → Bool
distinct [] = true
distinct (n ∷ names) = not (contains n names) && distinct names

contains-append :
    (n m : Text) (out : List Text)
    → contains n out ≡ false
    → (m == n) ≡ false
    → contains n (out ++ m ∷ []) ≡ false
contains-append n m [] h e = ground arith
contains-append n m (x ∷ out) h e = ground (arith, contains-append n m out)

distinct-append :
    (n : Text) (out : List Text)
    → distinct out ≡ true
    → contains n out ≡ false
    → distinct (out ++ n ∷ []) ≡ true
unfolding distinct
distinct-append n [] d h = refl
distinct-append n (x ∷ out) d h =
    ground (arith, distinct-append n out, contains-append x n out, ==_iff x n, ==_iff n x)

distinct-add_name :
    (out : List Text) (name : Option Text)
    → distinct out ≡ true
    → distinct (add_name out name) ≡ true
unfolding add_name
distinct-add_name out none d = d
distinct-add_name out (some n) d = elim (Bool-cases (contains n out)) [
  | inl y ↦ ground arith
  | inr h ↦ ground (arith, distinct-append n out d h)
]

module _ ⦃R : Runtime⦄ where
  distinct-qualify_from :
      (schemas : Schemas) (out list names : List Text)
      → distinct out ≡ true
      → qualify_from schemas out list ≡ ok names
      → distinct names ≡ true
  unfolding qualify_from
  distinct-qualify_from schemas out [] names d e = ground arith
  distinct-qualify_from schemas out (raw ∷ list) names d e =
      elim (Result-cases (qualify_name schemas raw)) [
        | inl (x, m) ↦ ground arith
        | inr (name, m) ↦
            distinct-qualify_from schemas (add_name out name) list names
              (distinct-add_name out name d) (ground arith)
      ]

  distinct-qualify :
      (schemas : Schemas) (list : List Text) (names : Option (List Text))
      → qualify schemas list ≡ ok names
      → distinct (names_or_nil names) ≡ true
  unfolding qualify some_names names_or_nil distinct
  distinct-qualify schemas [] names e = ground arith
  distinct-qualify schemas (raw ∷ list) names e =
      elim (Result-cases (qualify_from schemas [] (raw ∷ list))) [
        | inl (x, m) ↦ ground arith
        | inr (out, m) ↦ ground (arith, distinct-qualify_from schemas [] (raw ∷ list) out refl m)
      ]

  -- A nil list gives the nil list of names, and no name to leave out.
  exclusive_lists :
      (schemas : Schemas) (attributes excluded : List Text) (included left_out : Option (List Text))
      → check_attributes attributes excluded ≡ true
      → qualify schemas attributes ≡ ok included
      → qualify schemas excluded ≡ ok left_out
      → (included ≡ none) ⊎ (names_or_nil left_out ≡ [])
  unfolding check_attributes qualify names_or_nil
  exclusive_lists schemas [] excluded included left_out c i e = inl (ground arith)
  exclusive_lists schemas (a ∷ attributes) [] included left_out c i e = inr (ground arith)
  exclusive_lists schemas (a ∷ attributes) (x ∷ excluded) included left_out c i e =
      absurd (ground arith)

  -- A projection that newProjection returns lists no name twice, and it never lists both names to
  -- show and names to leave out.
  pub new_projection-is_exclusive :
      (schemas : Schemas) (attributes excluded : List Text) (p : Projection)
      → new_projection schemas attributes excluded ≡ ok p
      → (distinct (names_or_nil p.included) ≡ true)
        × (distinct p.excluded ≡ true)
        × ((p.included ≡ none) ⊎ (p.excluded ≡ []))
  unfolding new_projection
  new_projection-is_exclusive schemas attributes excluded p h =
      elim (Bool-cases (check_attributes attributes excluded)) [
        | inr n ↦ absurd (ground arith)
        | inl c ↦ elim (Result-cases (qualify schemas attributes)) [
          | inl (x, m) ↦ absurd (ground arith)
          | inr (i, m) ↦ elim (Result-cases (qualify schemas excluded)) [
            | inl (x, n) ↦ absurd (ground arith)
            | inr (l, n) ↦ ground (
              arith,
              exclusive_lists schemas attributes excluded i l c m n,
              distinct-qualify schemas attributes i m,
              distinct-qualify schemas excluded l n,
            )
          ]
        ]
      ]
