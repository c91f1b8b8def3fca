-- ===== src/Core/Object/Laws.antt =====
-- pkg/core/object.go: reading what was set, and the names that an operation leaves alone.
use scim_go.Prelude.{
  Text, true, false, [], ◌∷◌, list_eq, nat_eq, is_some, ◌≡◌, refl, ◌⊎◌, inl, arith,
}
use scim_go.Prelude.Dict.{lookup, insert, erase, lookup-insert, lookup-erase}
use scim_go.Runtime.{Runtime, equal_fold}
use scim_go.Core.Value.{Value, Object}
use scim_go.Core.Object.{better, best, key, get, set, remove}

module _ ⦃R : Runtime⦄ where
  -- What the loop ends with is its start, or a name of the object that folds like the one asked.
  pub best_origin :
      (name match : Text) (o : Object)
      → (best name match o ≡ match)
        ⊎ ((equal_fold (best name match o) name ≡ true)
            × (is_some (lookup (best name match o) o) ≡ true))
  unfolding best better lookup
  best_origin name match [] = inl refl
  best_origin name match ((c, v) ∷ o) =
      ground (arith, best_origin name match o, best_origin name c o)

  pub key_fold : (o : Object) (name : Text) → R.fold (key o name) ≡ R.fold name
  unfolding key
  key_fold o name = ground (arith, best_origin name [] o)

  pub key_held :
      (o : Object) (name : Text) → (key o name ≡ name) ⊎ (is_some (lookup (key o name) o) ≡ true)
  unfolding key
  key_held o name = ground (arith, best_origin name [] o)

  -- Writing to a name that is held leaves the names alone.
  best-insert_held :
      (name match k : Text) (v : Value) (o : Object)
      → is_some (lookup k o) ≡ true
      → best name match (insert k v o) ≡ best name match o
  unfolding best insert lookup
  best-insert_held name match k v [] h = ground arith
  best-insert_held name match k v ((c, w) ∷ o) h =
      ground (arith, best-insert_held name match k v o, best-insert_held name c k v o)

  best-insert_other :
      (name match k : Text) (v : Value) (o : Object)
      → equal_fold k name ≡ false
      → best name match (insert k v o) ≡ best name match o
  unfolding best better insert
  best-insert_other name match k v [] h = ground arith
  best-insert_other name match k v ((c, w) ∷ o) h =
      ground (arith, best-insert_other name match k v o h, best-insert_other name c k v o h)

  -- A write does not change under which name its value is found.
  pub key-set_self : (o : Object) (name : Text) (v : Value) → key (set o name v) name ≡ key o name
  unfolding key set
  key-set_self o name v = ground (
    arith,
    lookup-insert name (key o name) v o,
    key_held o name,
    best-insert_held name [] (key o name) v o,
  )

  pub key-set_other :
      (o : Object) (name other : Text) (v : Value)
      → equal_fold name other ≡ false
      → key (set o name v) other ≡ key o other
  unfolding set
  key-set_other o name other v h =
      unfold key in
      ground (
        arith,
        lookup-insert other (key o name) v o,
        key_fold o name,
        best-insert_other other [] (key o name) v o,
      )

  pub get-set_self : (o : Object) (name : Text) (v : Value) → get (set o name v) name ≡ v
  unfolding get
  get-set_self o name v = rw key-set_self (unfold set in rw lookup-insert (ground arith))

  -- Reading a name after writing one that does not fold like it: what is written is read under its
  -- name, and the other name reads as before.
  pub get-set :
      (o : Object) (name other : Text) (v : Value)
      → equal_fold name other ≡ false
      → (get (set o name v) name ≡ v) × (get (set o name v) other ≡ get o other)
  unfolding get
  get-set o name other v h = (
    unfold get in get-set_self o name v,
    rw (key-set_other o name other v h)
        (unfold set in rw lookup-insert (ground (arith, key_fold o name, key_fold o other))),
  )

  best-erase_other :
      (name match k : Text) (o : Object)
      → equal_fold k name ≡ false
      → best name match (erase k o) ≡ best name match o
  unfolding best better erase
  best-erase_other name match k [] h = refl
  best-erase_other name match k ((c, w) ∷ o) h =
      ground (arith, best-erase_other name match k o h, best-erase_other name c k o h)

  key-remove_other :
      (o : Object) (name other : Text)
      → equal_fold name other ≡ false
      → key (remove o name) other ≡ key o other
  unfolding remove
  key-remove_other o name other h =
      unfold key in
      ground (
        arith,
        lookup-erase other (key o name) o,
        key_fold o name,
        best-erase_other other [] (key o name) o,
      )

  -- Removing a name leaves what is read under one that does not fold like it.
  pub get-remove :
      (o : Object) (name other : Text)
      → equal_fold name other ≡ false
      → get (remove o name) other ≡ get o other
  unfolding get
  get-remove o name other h =
      rw (key-remove_other o name other h)
        (unfold remove in rw lookup-erase (ground (arith, key_fold o name, key_fold o other)))
