-- ===== src/Store/Link/Diff.antt =====
-- pkg/store/link.go: the two lists of LinkDiff.
use scim_go.Prelude.{
  Text, false, List, [], ◌∷◌, list_eq, nat_eq, contains, not, ◌&&◌, ◌≡◌, refl, arith,
}
use scim_go.Store.Link.{missing_loop, missing, link_diff}

contains-missing_loop :
    (have seen from : List Text) (id : Text)
    → contains id (missing_loop have seen from)
      ≡ (contains id from && not (contains id have) && not (contains id seen))
unfolding missing_loop
contains-missing_loop have seen [] id = refl
contains-missing_loop have seen (x ∷ from) id =
    ground (arith, contains-missing_loop have (x ∷ seen) from id)

pub contains-missing :
    (from held : List Text) (id : Text)
    → contains id (missing from held) ≡ (contains id from && not (contains id held))
unfolding missing
contains-missing from held id = ground (arith, contains-missing_loop held [] from id)

-- No id is listed twice.
abbrev pub Distinct : List Text → Type 0
Distinct [] = Unit
Distinct (x ∷ xs) = (contains x xs ≡ false) × Distinct xs

missing_loop-Distinct : (have seen from : List Text) → Distinct (missing_loop have seen from)
unfolding missing_loop
missing_loop-Distinct have seen [] = tt
missing_loop-Distinct have seen (x ∷ from) = ground (
  arith,
  missing_loop-Distinct have (x ∷ seen) from,
  contains-missing_loop have (x ∷ seen) from x,
)

-- The ids to add are those wanted and not current, the ids to remove those current and not wanted,
-- and neither list names an id twice.
pub link_diff_lem :
    (current wanted : List Text) (id : Text)
    → (contains id (link_diff current wanted).0 ≡ (contains id wanted && not (contains id current)))
      × (contains id (link_diff current wanted).1
          ≡ (contains id current && not (contains id wanted)))
      × Distinct (link_diff current wanted).0
      × Distinct (link_diff current wanted).1
unfolding link_diff
link_diff_lem current wanted id = (
  contains-missing wanted current id,
  contains-missing current wanted id,
  missing_loop-Distinct current [] wanted,
  missing_loop-Distinct wanted [] current,
)
