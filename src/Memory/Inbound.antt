-- ===== src/Memory/Inbound.antt =====
-- internal/memory/inbound.go: for each resource, who points at it. The laws tell which edges are
-- held after each operation.
pub mod Laws
use scim_go.Prelude.{
  Text, Bool, true, false, Option, none, some, List, [], ◌∷◌, ◌==◌, Eq, list_eq, nat_eq,
  if◌then◌else◌, ◌&&◌, ◌||◌, not, contains, get_or, delete_func, ◌≡◌, refl, arith, any,
}
use scim_go.Prelude.Dict.{lookup, insert, erase, lookup-insert, lookup-erase}
use scim_go.Store.Link.{Link}
use scim_go.Memory.State.{Edge, Inbound}

-- Go's `==` on edges
unfoldable pub same_edge : Edge → Edge → Bool
same_edge a b = a.source == b.source && a.attribute == b.attribute

-- The edges to a target; a target without a set has none.
unfoldable pub edges : Inbound → Text → List Edge
edges ins target = get_or (lookup target ins) []

-- in[target][e] = struct{}{}
insert_edge : Edge → List Edge → List Edge
insert_edge e es = if any (same_edge e) es then es else e ∷ es

-- delete(set, e)
delete_edge : Edge → List Edge → List Edge
delete_edge e es = delete_func (same_edge e) es

unfoldable pub add : Inbound → Text → Edge → Inbound
unfolding edges insert_edge same_edge
add ins target e = insert target (insert_edge e (edges ins target)) ins

-- A missing set is nil, and deleting from it does nothing.
unfoldable pub remove : Inbound → Text → Edge → Inbound
unfolding delete_edge same_edge
remove ins target e = elim (lookup target ins) [
  | none ↦ ins
  | some es ↦ insert target (delete_edge e es) ins
]

with_attribute : Text → List Edge → List Text
with_attribute attribute [] = []
with_attribute attribute (e ∷ es) =
    let rest = with_attribute attribute es in
    if e.attribute == attribute then e.source ∷ rest else rest

unfoldable pub sources : Inbound → Text → Text → List Text
unfolding edges with_attribute
sources ins target attribute = with_attribute attribute (edges ins target)

-- `drop` returns the edges and deletes the set.
unfoldable pub dropped : Inbound → Text → List Edge × Inbound
unfolding edges
dropped ins target = (edges ins target, erase target ins)

remove_targets : Inbound → Edge → List Text → Inbound
unfolding remove
remove_targets ins e [] = ins
remove_targets ins e (t ∷ targets) = remove_targets (remove ins t e) e targets

remove_links : Inbound → Text → List Link → Inbound
unfolding remove_targets
remove_links ins source [] = ins
remove_links ins source (l ∷ links) =
    remove_links
      (remove_targets ins (record { source = source; attribute = l.attribute }) l.targets) source
      links

add_targets : Inbound → Edge → List Text → Inbound
unfolding add
add_targets ins e [] = ins
add_targets ins e (t ∷ targets) = add_targets (add ins t e) e targets

add_links : Inbound → Text → List Link → Inbound
unfolding add_targets
add_links ins source [] = ins
add_links ins source (l ∷ links) =
    add_links (add_targets ins (record { source = source; attribute = l.attribute }) l.targets)
      source links

unfoldable pub relink : Inbound → Text → List Link → List Link → Inbound
unfolding remove_links add_links
relink ins source before after = add_links (remove_links ins source before) source after

-- Whether an edge to a target is held.
unfoldable pub has_edge : Inbound → Text → Edge → Bool
unfolding edges same_edge
has_edge ins target e = any (same_edge e) (edges ins target)

-- Whether some link with the attribute names the target.
unfoldable pub links_to : List Link → Text → Text → Bool
links_to [] attribute target = false
links_to (l ∷ links) attribute target =
    (l.attribute == attribute && contains target l.targets) || links_to links attribute target
