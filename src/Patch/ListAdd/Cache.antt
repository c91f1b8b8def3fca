-- ===== src/Patch/ListAdd/Cache.antt =====
-- pkg/patch/list_add.go and index.go: an index that is kept from one add to the next.
use scim_go.Prelude.{
  Text, some, List, [], ◌∷◌, ◌++◌, ==_iff, list_eq, nat_eq, length, length-append, delete_func, ◌≡◌,
  refl, arith, ap, sym, ◌∙◌,
}
use scim_go.Prelude.Dict.{lookup, insert, lookup-insert}
use scim_go.Runtime.{Runtime}
use scim_go.Core.Value.{Value}
use scim_go.Core.Attribute.{Attribute}
use scim_go.Value.Identity.{Formats}
use scim_go.Value.Sets.{ValueSet, add_element, add_elements, new_set, contains_element}
use scim_go.Patch.Index.{
  Index, IndexCache, new_index, fresh, add_stored, cached, cache_key, lookup_index,
}
use scim_go.Patch.Target.{Target}
use scim_go.Patch.ListAdd.{index_of, put_index}

module _ ⦃R : Runtime⦄ ⦃F : Formats⦄ where
  add_elements-append :
      (s : ValueSet) (vs ws : List Value)
      → add_elements s (vs ++ ws) ≡ add_elements (add_elements s vs) ws
  unfolding add_elements
  add_elements-append s [] ws = refl
  add_elements-append s (v ∷ vs) ws = add_elements-append (add_element s v) vs ws

  new_set-append :
      (a : Attribute) (vs ws : List Value) → add_elements (new_set a vs) ws ≡ new_set a (vs ++ ws)
  unfolding new_set
  new_set-append a vs ws =
      sym (add_elements-append (record { of_attribute = a; objects = []; buckets = [] }) vs ws)

  lookup_index-cached :
      (c : IndexCache) (extension name : Text) (a : Attribute) (vs : List Value) (ix : Index)
      → lookup (cache_key extension name) c ≡ some ix
      → ix.size ≡ length vs
      → lookup_index c extension name a vs ≡ (c, ix)
  unfolding lookup_index cached
  lookup_index-cached c extension name a vs ix found size =
      let same = (==_iff ix.size (length vs)).1 size in ground arith

  module _ (t : Target) (c : IndexCache) (vs ws : List Value) where
    stored : Index
    stored = add_stored (new_index t.own vs) ws

    index_of-put_index :
        index_of t (put_index t c stored) (vs ++ ws) ≡ (put_index t c stored, stored)
    unfolding index_of put_index
    index_of-put_index =
        let k = cache_key t.extension t.path.name in
        lookup_index-cached (insert k stored c) t.extension t.path.name t.own (vs ++ ws) stored
          (lookup-insert k k stored c ∙ rw ((==_iff k k).1 refl) refl)
          (unfold stored add_stored new_index in sym (length-append vs ws))

    -- An index of a list to which what was added is recorded is found again for the longer list, and
    -- lets through the same elements as an index that is built anew of that list.
    pub fresh-index_of :
        (candidates : List Value)
        → (index_of t (put_index t c (add_stored (new_index t.own vs) ws)) (vs ++ ws) ≡ (
          put_index t c (add_stored (new_index t.own vs) ws),
          add_stored (new_index t.own vs) ws,
        ))
          × (fresh (add_stored (new_index t.own vs) ws) candidates
              ≡ fresh (new_index t.own (vs ++ ws)) candidates)
    unfolding stored
    fresh-index_of candidates = (
      index_of-put_index,
      unfold fresh add_stored new_index in
          ap (λ s. delete_func (contains_element s) candidates) (new_set-append t.own vs ws),
    )
