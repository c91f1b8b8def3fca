-- ===== src/Memory/Query/Order.antt =====
-- internal/memory/sort.go: the order of a listing.
use scim_go.Prelude.{Bool, true, false, Ordering, swap, ◌≡◌, arith}
use scim_go.Runtime.{Runtime}
use scim_go.Core.Value.{Value}
use scim_go.Core.Attribute.{Attribute}
use scim_go.Core.Coerce.{fold}
use scim_go.Value.{defaulted, is_unassigned}
use scim_go.Value.Matching.{compare_values_swap}
use scim_go.Memory.Query.{compare_missing, compare_present, compare_ascending, compare_sort_keys}

module _ ⦃R : Runtime⦄ where
  compare_ascending-swap :
      (a : Attribute) (x y : Value) → compare_ascending a x y ≡ swap (compare_ascending a y x)
  unfolding compare_ascending compare_missing compare_present
  compare_ascending-swap a x y =
      ground (arith, compare_values_swap (fold a (defaulted a x)) (fold a (defaulted a y)))

  -- Swapping two resources swaps their order, ascending and descending, and the descending order is
  -- the ascending one backwards.
  pub compare_sort_keys-swap :
      (a : Attribute) (x y : Value) (falling : Bool)
      → (compare_sort_keys a x y falling ≡ swap (compare_sort_keys a y x falling))
        × (compare_sort_keys a x y true ≡ compare_sort_keys a y x false)
  unfolding compare_sort_keys
  compare_sort_keys-swap a x y falling =
      ground (arith, compare_ascending-swap a x y, compare_ascending-swap a y x)

  -- A resource without a value comes after one with a value if the order ascends, and before it if
  -- the order descends.
  pub compare_sort_keys_missing :
      (a : Attribute) (x y : Value)
      → is_unassigned (defaulted a x) ≡ true
      → is_unassigned (defaulted a y) ≡ false
      → (compare_sort_keys a x y false ≡ Ordering.gt)
        × (compare_sort_keys a y x false ≡ Ordering.lt)
        × (compare_sort_keys a x y true ≡ Ordering.lt)
        × (compare_sort_keys a y x true ≡ Ordering.gt)
  unfolding compare_sort_keys compare_ascending compare_missing
  compare_sort_keys_missing a x y missing held = ground (arith, missing, held)
