-- ===== src/Core/Object.antt =====
-- pkg/core/object.go: a JSON object whose names are case insensitive.
pub mod Laws
pub mod Iteration
use scim_go.Prelude.{
  Text, Bool, true, false, Option, none, some, List, [], ◌∷◌, ◌==◌, list_eq, nat_eq, if◌then◌else◌,
  ◌&&◌, ◌||◌, text_lt, is_some, get_or,
}
use scim_go.Prelude.Dict.{lookup, insert, erase}
use scim_go.Runtime.{Runtime, equal_fold}
use scim_go.Core.Value.{Value, null, Object}

module _ ⦃R : Runtime⦄ where
  -- the test of the loop in `key`
  pub better : Text → Text → Text → Bool
  better name match candidate =
      equal_fold candidate name && (match == [] || text_lt candidate match)

  -- the loop of `key`, over the names in the order of the map's iteration
  unfoldable pub best : Text → Text → Object → Text
  unfolding better
  best name match [] = match
  best name match ((candidate, _) ∷ o) =
      best name (if better name match candidate then candidate else match) o

  unfoldable pub key : Object → Text → Text
  unfolding best
  key o name =
      if is_some (lookup name o)
      then name
      else let match = best name [] o in if match == [] then name else match

  unfoldable pub get : Object → Text → Value
  get o name = get_or (lookup (key o name) o) null

  unfoldable pub has : Object → Text → Bool
  has o name = is_some (lookup (key o name) o)

  unfoldable pub set : Object → Text → Value → Object
  set o name v = insert (key o name) v o

  unfoldable pub remove : Object → Text → Object
  remove o name = erase (key o name) o
