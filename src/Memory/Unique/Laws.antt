-- ===== src/Memory/Unique/Laws.antt =====
-- internal/memory/unique_index.go: who holds a key after each operation.
use scim_go.Prelude.{
  Text, true, none, some, List, [], ◌∷◌, list_eq, nat_eq, if◌then◌else◌, contains, ◌≡◌, ◌⊎◌, refl,
  arith, Option-cases, inl, inr,
}
use scim_go.Prelude.Dict.{lookup, insert, erase, lookup-insert, lookup-erase}
use scim_go.Memory.State.{IndexKey, UniqueIndex}
use scim_go.Memory.Unique.{conflict, add_keys, remove_keys, key_eq}

pub lookup-add_keys :
    (u : UniqueIndex) (keys : List IndexKey) (id : Text) (k : IndexKey)
    → lookup k (add_keys u keys id) ≡ (if contains k keys then some id else lookup k u)
unfolding add_keys
lookup-add_keys u [] id k = refl
lookup-add_keys u (j ∷ keys) id k =
    ground (arith, lookup-add_keys (insert j id u) keys id k, lookup-insert k j id u)

pub lookup-remove_keys :
    (u : UniqueIndex) (keys : List IndexKey) (k : IndexKey)
    → lookup k (remove_keys u keys) ≡ (if contains k keys then none else lookup k u)
unfolding remove_keys
lookup-remove_keys u [] k = refl
lookup-remove_keys u (j ∷ keys) k =
    ground (arith, lookup-remove_keys (erase j u) keys k, lookup-erase k j u)

-- Without a conflict every key is free, or held by the same resource.
pub conflict_free :
    (u : UniqueIndex) (id : Text) (keys : List IndexKey) (k : IndexKey)
    → conflict u id keys ≡ none
    → contains k keys ≡ true
    → (lookup k u ≡ none) ⊎ (lookup k u ≡ some id)
unfolding conflict
conflict_free u id [] k h c = cc
conflict_free u id (j ∷ keys) k h c = elim (Option-cases (lookup j u)) [
  | inl n ↦ ground (arith, conflict_free u id keys k)
  | inr (x, e) ↦ ground (arith, conflict_free u id keys k)
]
