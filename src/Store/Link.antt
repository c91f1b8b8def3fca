-- ===== src/Store/Link.antt =====
-- pkg/store/link.go and internal/idset: links between resources and their differences.
pub mod Diff
use scim_go.Prelude.{
  Text, Bool, true, false, List, [], ◌∷◌, ◌==◌, list_eq, nat_eq, contains, ◌||◌, if◌then◌else◌,
}

-- Link
pub record Link : Type 0 where
  pub attribute : Text
  pub types : List Text
  pub targets : List Text
  pub soft : Bool

-- idset.Set, by Add and Has
abbrev pub IdSet : Type 0
IdSet = List Text

abbrev pub add_id : Text → IdSet → IdSet
add_id id s = id ∷ s

abbrev pub has_id : IdSet → Text → Bool
has_id s id = contains id s

-- the loop of `missing` that collects
missing_loop : IdSet → IdSet → List Text → List Text
missing_loop have seen [] = []
missing_loop have seen (id ∷ from) =
    let rest = missing_loop have (add_id id seen) from in
    if has_id have id || has_id seen id then rest else id ∷ rest

-- `missing`: what is in `from` and not in `held`, each once
unfoldable pub missing : List Text → List Text → List Text
unfolding missing_loop
missing from held = missing_loop held [] from

-- LinkDiff
unfoldable pub link_diff : List Text → List Text → List Text × List Text
unfolding missing
link_diff current wanted = (missing wanted current, missing current wanted)
