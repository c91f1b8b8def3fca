-- ===== src/Memory/Entries.antt =====
-- internal/memory/entries.go: the table of resources and the checks of links.
use scim_go.Prelude.{
  ℕ, zero, suc, ◌+◌, Text, Bool, true, false, Option, none, some, List, [], ◌∷◌, ◌++◌, ◌==◌,
  list_eq, nat_eq, if◌then◌else◌, ◌&&◌, not, contains, delete_func, length, is_some, map,
}
use mathlib.Core.List.{reverse}
use scim_go.Prelude.Dict.{lookup, insert}
use scim_go.Errors.{Result, ok, err, err_invalid_value, ◌>>◌}
use scim_go.Core.Schemas.{Schema}
use scim_go.Store.Link.{Link, IdSet, add_id, has_id, link_diff}
use scim_go.Memory.State.{Entry, Entries, Memory, bumped, tick}
use scim_go.Memory.Targets.{targets_of}

-- `find`: an entry of the schema, which is compared by address
unfoldable pub find : Entries → Text → Schema → Option Entry
find es id schema = elim (lookup id es) [
  | none ↦ none
  | some e ↦ if e.schema.address == schema.address then some e else none
]

-- es[id].links, where a missing entry has none
abbrev pub links_of : Entries → Text → List Link
links_of es id = elim (lookup id es) [ none ↦ [] | some e ↦ e.links ]

-- `reaches`. The head of `pending` is the end of the slice, so the targets are pushed in reverse.
unfoldable pub reaches_loop : ℕ → Entries → Text → Text → IdSet → List Text → Bool
reaches_loop zero es goal attribute seen pending = false
reaches_loop (suc fuel) es goal attribute seen [] = false
reaches_loop (suc fuel) es goal attribute seen (id ∷ pending) =
    let skip = reaches_loop fuel es goal attribute seen pending in
    let visit =
      reaches_loop fuel es goal attribute (add_id id seen)
        (reverse (targets_of (links_of es id) attribute) ++ pending) in
    if id == goal then true else if has_id seen id then skip else visit

-- How many ids the loop can push in all: the targets of the entries that are not seen.
unfoldable pub unseen : Entries → Text → IdSet → ℕ
unseen [] attribute seen = 0
unseen ((id, e) ∷ es) attribute seen =
    let rest = unseen es attribute seen in
    if has_id seen id then rest else length (targets_of e.links attribute) + rest

unfoldable pub reaches : Entries → Text → Text → Text → Bool
reaches es from goal attribute =
    reaches_loop (suc (suc (unseen es attribute []))) es goal attribute [] (from ∷ [])

-- checkAcyclic
unfoldable pub check_acyclic : Entries → Text → Text → List Text → Result (Unit {0})
check_acyclic es source attribute [] = ok tt
check_acyclic es source attribute (t ∷ targets) =
    if reaches es t source attribute
    then err err_invalid_value
    else check_acyclic es source attribute targets

-- checkTargets
unfoldable pub check_targets : Entries → Link → List Text → Result (Unit {0})
check_targets es link [] = ok tt
check_targets es link (id ∷ ids) = elim (lookup id es) [
  | none ↦ if link.soft then check_targets es link ids else err err_invalid_value
  | some target ↦
      if contains target.schema.name link.types
      then check_targets es link ids
      else err err_invalid_value
]

-- the body of the loop of `checkLinks`
unfoldable pub check_link : Entries → Text → List Link → Link → Result (Unit {0})
check_link es id before link =
    let add = (link_diff (targets_of before link.attribute) link.targets).0 in
    check_targets es link add
    >> (if link.soft then ok tt else check_acyclic es id link.attribute add)

-- checkLinks
unfoldable pub check_links : Entries → Text → List Link → List Link → Result (Unit {0})
check_links es id before [] = ok tt
check_links es id before (link ∷ links) =
    check_link es id before link >> check_links es id before links

-- `resolved`: a soft link loses the targets that are not held.
resolve_link : Entries → Link → Link
resolve_link es link = record link {
  targets = delete_func (λ id. link.soft && not (is_some (lookup id es))) link.targets;
}

unfoldable pub resolved : Entries → List Link → List Link
unfolding resolve_link
resolved es links = map (resolve_link es) links

-- the body of the loop of `touch`
unfoldable pub touch_one : Text → Memory → Memory
touch_one id m = elim (lookup id m.entries) [
  | none ↦ m
  | some e ↦ record (tick m) {
    entries = insert id (record e { updated = bumped m e.updated }) m.entries;
  }
]

-- `touch`
unfoldable pub touch : List Text → Memory → Memory
touch [] m = m
touch (id ∷ ids) m = touch ids (touch_one id m)
