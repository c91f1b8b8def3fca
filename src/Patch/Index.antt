-- ===== src/Patch/Index.antt =====
-- pkg/patch/index.go: what a multi-valued attribute holds, kept from one add to the next. A pointer
-- to a primary element is its position: while an index is kept, its list only grows.
use scim_go.Prelude.{
  ℕ, ◌+◌, Text, Option, none, some, List, [], ◌∷◌, ◌++◌, ◌==◌, list_eq, nat_eq, bytes,
  if◌then◌else◌, delete_func, length,
}
use scim_go.Prelude.Dict.{Dict, lookup, insert}
use scim_go.Runtime.{Runtime}
use scim_go.Core.Value.{Value}
use scim_go.Core.Attribute.{Attribute}
use scim_go.Value.{primary}
use scim_go.Value.Identity.{Formats}
use scim_go.Value.Sets.{ValueSet, new_set, add_elements, contains_element}

-- index
pub record Index : Type 0 where
  pub set : ValueSet
  pub size : ℕ
  pub primaries : List ℕ

-- indexCache
abbrev pub IndexCache : Type 0
IndexCache = Dict Text Index

module _ ⦃R : Runtime⦄ where
  -- the positions of the primary elements, from the element at a position on
  unfoldable pub primaries_from : ℕ → List Value → List ℕ
  primaries_from i [] = []
  primaries_from i (v ∷ vs) =
      let rest = primaries_from (i + 1) vs in if primary v then i ∷ rest else rest

  module _ ⦃F : Formats⦄ where
    -- newIndex
    unfoldable pub new_index : Attribute → List Value → Index
    new_index a existing = record {
      set = new_set a existing;
      size = length existing;
      primaries = primaries_from 0 existing;
    }

    -- index.fresh
    unfoldable pub fresh : Index → List Value → List Value
    fresh ix candidates = delete_func (contains_element ix.set) candidates

    -- index.add
    unfoldable pub add_stored : Index → List Value → Index
    add_stored ix stored = record ix {
      set = add_elements ix.set stored;
      size = ix.size + length stored;
    }

    -- the test and the key of indexCache.lookup
    unfoldable pub cached : Option Index → ℕ → Option Index
    cached none n = none
    cached (some ix) n = if ix.size == n then some ix else none

    unfoldable pub cache_key : Text → Text → Text
    cache_key extension name = extension ++ (bytes ":" ++ name)

    -- indexCache.lookup
    unfoldable pub lookup_index :
        IndexCache → Text → Text → Attribute → List Value → IndexCache × Index
    unfolding cached
    lookup_index c extension name a elements =
        let key = cache_key extension name in
        elim (cached (lookup key c) (length elements)) [
          | some ix ↦ (c, ix)
          | none ↦ let ix = new_index a elements in (insert key ix c, ix)
        ]
