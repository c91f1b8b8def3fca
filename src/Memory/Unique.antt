-- ===== src/Memory/Unique.antt =====
-- internal/memory/unique_index.go and index_key.go: which resource holds each unique value.
pub mod Laws
use scim_go.Prelude.{
  ℕ, Text, Bool, true, false, Option, none, some, List, [], ◌∷◌, ◌++◌, ◌==◌, Eq, list_eq, nat_eq,
  ℤ-discrete, if◌then◌else◌, ◌&&◌, not, map,
}
use native.Mathlib.Decide.{ℕ_discrete}
use mathlib.Core.Bool.{Bool-discrete}
use scim_go.Prelude.Dict.{lookup, insert, erase}
use scim_go.Runtime.{Runtime}
use scim_go.Decode.{Json}
use scim_go.Core.Kinds.{uniqueness_none, uniqueness_eq}
use scim_go.Core.Value.{Value, Object, text, boolean, int64, float64, instant}
use scim_go.Core.Attribute.{Attribute, traits}
use scim_go.Core.Coerce.{fold}
use scim_go.Value.{is_unassigned}
use scim_go.Value.Identity.{normalize_zero}
use scim_go.Fields.{Field, Fields, field_values}
use scim_go.Memory.State.{
  IndexKey, KeyValue, key_text, key_encoded, key_integer, key_instant, key_float, key_boolean,
  UniqueIndex,
}

KeyValue-discrete : Discrete KeyValue
KeyValue-discrete = hlevel (ℤ-discrete, ℕ_discrete)

IndexKey-discrete : Discrete IndexKey
IndexKey-discrete = hlevel (KeyValue-discrete, ℕ_discrete)

instance unfoldable pub key_eq : Eq IndexKey
unfolding IndexKey-discrete KeyValue-discrete
key_eq = record { dec = IndexKey-discrete }

-- `conflict`: the attribute of the first key that another resource holds
unfoldable pub conflict : UniqueIndex → Text → List IndexKey → Option ℕ
conflict u id [] = none
conflict u id (k ∷ keys) = elim (lookup k u) [
  | none ↦ conflict u id keys
  | some holder ↦ if holder == id then conflict u id keys else some k.attribute
]

unfoldable pub add_keys : UniqueIndex → List IndexKey → Text → UniqueIndex
add_keys u [] id = u
add_keys u (k ∷ keys) id = add_keys (insert k id u) keys id

unfoldable pub remove_keys : UniqueIndex → List IndexKey → UniqueIndex
remove_keys u [] = u
remove_keys u (k ∷ keys) = remove_keys (erase k u) keys

module _ ⦃R : Runtime⦄ ⦃J : Json⦄ where
  -- uniqueKey. A key of a Go map holds the float, of which 0 and -0 are equal, so its bits stand with one
  -- zero.
  pub unique_key : Attribute → Value → KeyValue
  unique_key a v = elim (fold a v) [
    | text s ↦ key_text s
    | int64 n ↦ key_integer n
    | float64 f ↦ key_float (normalize_zero f)
    | boolean b ↦ key_boolean b
    | instant t ↦ key_instant t
    | _ ↦ key_encoded (J.marshal v)
  ]

  assigned_keys : Attribute → List Value → List KeyValue
  unfolding unique_key
  assigned_keys a [] = []
  assigned_keys a (v ∷ vs) =
      let rest = assigned_keys a vs in if is_unassigned v then rest else unique_key a v ∷ rest

  -- uniqueKeys
  pub unique_keys : Field → Object → List KeyValue
  unfolding assigned_keys
  unique_keys f o = assigned_keys f.attribute (field_values f o)

  -- indexKeysOf, of the schema and the body of an entry
  unfoldable pub index_keys : ℕ → Object → Fields → List IndexKey
  unfolding unique_keys
  index_keys scope body [] = []
  index_keys scope body (f ∷ fields) =
      let rest = index_keys scope body fields in
      if (traits f.attribute).uniqueness == uniqueness_none
      then rest
      else map (λ v. record { scope = scope; attribute = (traits f.attribute).address; value = v })
          (unique_keys f body)
        ++ rest
