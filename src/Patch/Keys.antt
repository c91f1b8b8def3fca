-- ===== src/Patch/Keys.antt =====
-- pkg/patch/keys.go: the names of an object by their folded form. What `fold` writes, the smallest
-- rune of each orbit, is the fold of the runtime.
use scim_go.Prelude.{Text, none, some, [], ◌∷◌, list_eq, nat_eq, is_some, text_lt, if◌then◌else◌}
use scim_go.Prelude.Dict.{Dict, lookup, insert}
use scim_go.Runtime.{Runtime}
use scim_go.Core.Value.{Object}

module _ ⦃R : Runtime⦄ where
  -- keys.add: of the names with one folded form the smallest
  unfoldable pub add_key : Dict Text Text → Text → Dict Text Text
  add_key folded key = elim (lookup (R.fold key) folded) [
    | none ↦ insert (R.fold key) key folded
    | some existing ↦ if text_lt key existing then insert (R.fold key) key folded else folded
  ]

  -- the loop of newKeys
  unfoldable pub add_keys : Dict Text Text → Object → Dict Text Text
  add_keys folded [] = folded
  add_keys folded ((key, _) ∷ o) = add_keys (add_key folded key) o

  -- newKeys
  unfoldable pub new_keys : Object → Dict Text Text
  new_keys o = add_keys [] o

  -- keys.resolve. The map behind `object` is the one that is being written.
  unfoldable pub resolve_key : Object → Dict Text Text → Text → Text
  resolve_key o folded name =
      if is_some (lookup name o)
      then name
      else elim (lookup (R.fold name) folded) [ some key ↦ key | none ↦ name ]
