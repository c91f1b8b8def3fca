-- ===== src/Examples/Graphs.antt =====
-- internal/memory: the theorems on the search along links, at a small table.
use scim_go.Prelude.{Text, true, false, List, [], ◌∷◌, list_eq, nat_eq, bytes, ◌≡◌, refl, arith}
use scim_go.Prelude.Dict.{lookup}
use scim_go.Memory.State.{Entries}
use scim_go.Memory.Targets.{targets_of}
use scim_go.Memory.Entries.{reaches, reaches_loop, unseen, check_acyclic}
use scim_go.Memory.Reach.{reaches_sound, follows}
use scim_go.Memory.Chains.{Singled, leads, reaches_complete, check_acyclic_safe}
use scim_go.Memory.Inbound.{links_to}
use scim_go.Examples.{ann, members}

-- The group "2" links to "1".
abbrev table : Entries
table = (bytes "2", record ann { links = members (bytes "1" ∷ []) ∷ [] }) ∷ []

found_by_search : reaches table (bytes "2") (bytes "1") (bytes "members") ≡ true
unfolding reaches reaches_loop unseen lookup targets_of list_eq nat_eq
found_by_search = refl

reaches_sound_example :
    (hops : List Text) × (follows table (bytes "members") (bytes "2") hops (bytes "1") ≡ true)
reaches_sound_example =
    reaches_sound table (bytes "2") (bytes "1") (bytes "members") found_by_search

table-Singled : Singled table (bytes "members")
unfolding lookup list_eq nat_eq
table-Singled id = ground arith

one_hop : leads table (bytes "members") (bytes "2") (bytes "1" ∷ []) (bytes "1") ≡ true
unfolding lookup links_to list_eq nat_eq
one_hop = refl

reaches_complete_example : reaches table (bytes "2") (bytes "1") (bytes "members") ≡ true
reaches_complete_example =
    reaches_complete table (bytes "members") table-Singled (bytes "2") (bytes "1") (bytes "1" ∷ [])
      one_hop

check_acyclic_safe_example :
    leads table (bytes "members") (bytes "2") (bytes "1" ∷ []) (bytes "3") ≡ false
check_acyclic_safe_example =
    check_acyclic_safe table (bytes "members") table-Singled (bytes "3") (bytes "2" ∷ [])
      (bytes "2") (bytes "1" ∷ [])
      (unfold check_acyclic reaches reaches_loop unseen lookup targets_of list_eq nat_eq in refl)
      (unfold list_eq nat_eq in refl)
