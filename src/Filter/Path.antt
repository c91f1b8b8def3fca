-- ===== src/Filter/Path.antt =====
-- pkg/filter/attr_path.go: an attribute path cut into its parts, and put together again.
use scim_go.Prelude.{
  Text, Bool, true, false, Option, none, some, List, [], ◌∷◌, ◌++◌, ◌==◌, list_eq, nat_eq, ℕ,
  if◌then◌else◌,
}
use scim_go.Runtime.{Runtime}
pub mod Printing

-- AttrPath
pub record AttrPath : Type 0 where
  pub uri : Text
  pub name : Text
  pub sub_attribute : Text

abbrev pub push_first : ℕ → Text × Text → Text × Text
push_first c (a, b) = (c ∷ a, b)

-- strings.Cut at one byte, without its flag
unfoldable pub cut : ℕ → Text → Text × Text
cut sep [] = ([], [])
cut sep (c ∷ s) = let rest = cut sep s in if c == sep then ([], s) else push_first c rest

-- strings.CutLast at one byte
unfoldable pub cut_last_step : ℕ → ℕ → Text → Option (Text × Text) → Option (Text × Text)
cut_last_step sep c s (some r) = some (push_first c r)
cut_last_step sep c s none = if c == sep then some ([], s) else none

unfoldable pub cut_last : ℕ → Text → Option (Text × Text)
unfolding cut_last_step
cut_last sep [] = none
cut_last sep (c ∷ s) = cut_last_step sep c s (cut_last sep s)

-- splitAttrPath
unfoldable pub split_name : Text → Text × Text → AttrPath
split_name uri (name, sub) = record { uri = uri; name = name; sub_attribute = sub }

unfoldable pub split_attr_path : Text → AttrPath
unfolding cut cut_last split_name
split_attr_path raw = elim (cut_last b':' raw) [
  | none ↦ split_name [] (cut b'.' raw)
  | some (uri, rest) ↦ split_name uri (cut b'.' rest)
]

-- AttrPath.String
unfoldable pub after_name : Text → Text
after_name [] = []
after_name (c ∷ s) = b'.' ∷ c ∷ s

unfoldable pub before_name : Text → Text → Text
before_name [] s = s
before_name (c ∷ uri) s = (c ∷ uri) ++ b':' ∷ s

unfoldable pub path_text : AttrPath → Text
unfolding after_name before_name
path_text p = before_name p.uri (p.name ++ after_name p.sub_attribute)

module _ ⦃R : Runtime⦄ where
  -- AttrPath.Key
  unfoldable pub path_key : AttrPath → Text
  unfolding after_name
  path_key p = R.to_lower (p.name ++ after_name p.sub_attribute)
