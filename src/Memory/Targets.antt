-- ===== src/Memory/Targets.antt =====
-- internal/memory/targets.go: the targets of links.
use scim_go.Prelude.{Text, List, [], ◌∷◌, ◌++◌, ◌==◌, list_eq, nat_eq, if◌then◌else◌}
use scim_go.Store.Link.{Link, link_diff}

-- targetsOf: the targets of the first link with the attribute
unfoldable pub targets_of : List Link → Text → List Text
targets_of [] attribute = []
targets_of (l ∷ links) attribute =
    if l.attribute == attribute then l.targets else targets_of links attribute

-- changedTargets
unfoldable pub changed_targets : List Link → List Link → List Text
changed_targets before [] = []
changed_targets before (l ∷ links) =
    let (add, remove) = link_diff (targets_of before l.attribute) l.targets in
    (add ++ remove) ++ changed_targets before links

-- allTargets
unfoldable pub all_targets : List Link → List Text
all_targets [] = []
all_targets (l ∷ links) = l.targets ++ all_targets links
