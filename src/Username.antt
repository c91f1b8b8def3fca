-- ===== src/Username.antt =====
-- internal/username: the profiles of RFC 8265, with the PRECIS tables as parameters.
use scim_go.Prelude.{
  ℕ, Text, Bool, Option, none, some, List, [], ◌∷◌, ◌++◌, ◌==◌, nat_eq, list_eq, if◌then◌else◌, not,
  ◌&&◌, ◌||◌, has_prefix, has_suffix,
}
use scim_go.Runtime.{Runtime}

abbrev space : ℕ
space = b' '

-- strings.Split(s, " ")
pub split : Text → List Text
split [] = [] ∷ []
split (c ∷ s) = elim (split s) [
  | [] ↦ (c ∷ []) ∷ []
  | part ∷ parts ↦ if c == space then [] ∷ part ∷ parts else (c ∷ part) ∷ parts
]

-- strings.Join(parts, " ")
pub join : List Text → Text
join [] = []
join (part ∷ []) = part
join (part ∷ parts) = part ++ space ∷ join parts

module _ ⦃R : Runtime⦄ where
  pub enforce : Bool → Text → Option Text
  enforce case_exact part = elim (R.precis case_exact part) [
    | none ↦ none
    | some prepared ↦
        if R.is_right_to_left prepared && not (R.is_valid_bidi prepared)
        then none
        else some prepared
  ]

  -- the loop over the parts
  pub enforce_parts : Bool → List Text → Option (List Text)
  enforce_parts case_exact [] = some []
  enforce_parts case_exact ([] ∷ parts) = elim (enforce_parts case_exact parts) [
    | none ↦ none
    | some rest ↦ some ([] ∷ rest)
  ]
  enforce_parts case_exact (part ∷ parts) = elim (enforce case_exact part) [
    | none ↦ none
    | some prepared ↦ elim (enforce_parts case_exact parts) [
      | none ↦ none
      | some rest ↦ some (prepared ∷ rest)
    ]
  ]

  unfoldable pub prepare : Text → Bool → Option Text
  unfolding split join enforce enforce_parts
  prepare s case_exact =
      if s == [] || has_prefix s (space ∷ []) || has_suffix s (space ∷ [])
      then none
      else elim (enforce_parts case_exact (split s)) [
        | none ↦ none
        | some parts ↦ some (join parts)
      ]
