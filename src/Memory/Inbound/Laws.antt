-- ===== src/Memory/Inbound/Laws.antt =====
-- internal/memory/inbound.go: which edges are held after each operation.
use scim_go.Prelude.{
  Text, Bool, true, List, [], ◌∷◌, ◌==◌, list_eq, nat_eq, ◌&&◌, ◌||◌, not, contains, ◌≡◌, refl,
  arith, any, Option-cases, inl, inr,
}
use scim_go.Prelude.Dict.{lookup, lookup-insert, lookup-erase}
use scim_go.Store.Link.{Link}
use scim_go.Memory.State.{Edge, Inbound}
use scim_go.Memory.Inbound.{
  same_edge, edges, insert_edge, delete_edge, add, remove, remove_targets, remove_links,
  add_targets, add_links, relink, has_edge, links_to, dropped,
}

same_edge_trans : (e f g : Edge) → same_edge e f ≡ true → same_edge f g ≡ same_edge e g
unfolding same_edge
same_edge_trans e f g h = ground arith

same_edge_symm : (e f : Edge) → same_edge e f ≡ same_edge f e
unfolding same_edge
same_edge_symm e f = ground arith

same_edge_lem :
    (f : Edge) (source : Text) (l : Link)
    → same_edge f (record { source = source; attribute = l.attribute })
      ≡ (f.source == source && l.attribute == f.attribute)
unfolding same_edge
same_edge_lem f source l = ground arith

any-same_edge :
    (f e : Edge) (es : List Edge)
    → same_edge f e ≡ true
    → any (same_edge f) es ≡ any (same_edge e) es
any-same_edge f e [] h = refl
any-same_edge f e (g ∷ es) h = ground (arith, any-same_edge f e es h, same_edge_trans f e g h)

any-insert_edge :
    (e f : Edge) (es : List Edge)
    → any (same_edge f) (insert_edge e es) ≡ (same_edge f e || any (same_edge f) es)
unfolding insert_edge
any-insert_edge e f es = ground (arith, any-same_edge f e es)

any-delete_edge :
    (e f : Edge) (es : List Edge)
    → any (same_edge f) (delete_edge e es) ≡ (not (same_edge f e) && any (same_edge f) es)
unfolding delete_edge
any-delete_edge e f [] = ground arith
any-delete_edge e f (g ∷ es) = ground (
  arith,
  any-delete_edge e f es,
  same_edge_trans f e g,
  same_edge_trans e g f,
  same_edge_symm e f,
  same_edge_symm f g,
)

pub has_edge-add :
    (ins : Inbound) (t u : Text) (e f : Edge)
    → has_edge (add ins t e) u f ≡ ((t == u && same_edge f e) || has_edge ins u f)
unfolding has_edge add
has_edge-add ins t u e f =
    ground (
      arith,
      lookup-insert u t (insert_edge e (edges ins t)) ins,
      any-insert_edge e f (edges ins t),
    )

pub has_edge-remove :
    (ins : Inbound) (t u : Text) (e f : Edge)
    → has_edge (remove ins t e) u f ≡ (not (t == u && same_edge f e) && has_edge ins u f)
unfolding has_edge remove
has_edge-remove ins t u e f = elim (Option-cases (lookup t ins)) [
  | inl n ↦ ground arith
  | inr (es, h) ↦ ground (arith, lookup-insert u t (delete_edge e es) ins, any-delete_edge e f es)
]

pub has_edge-dropped :
    (ins : Inbound) (t u : Text) (f : Edge)
    → has_edge (dropped ins t).1 u f ≡ (not (t == u) && has_edge ins u f)
unfolding has_edge dropped
has_edge-dropped ins t u f = ground (arith, lookup-erase u t ins)

has_edge-add_targets :
    (ins : Inbound) (e : Edge) (ts : List Text) (u : Text) (f : Edge)
    → has_edge (add_targets ins e ts) u f ≡ ((contains u ts && same_edge f e) || has_edge ins u f)
unfolding add_targets
has_edge-add_targets ins e [] u f = refl
has_edge-add_targets ins e (t ∷ ts) u f =
    ground (arith, has_edge-add_targets (add ins t e) e ts u f, has_edge-add ins t u e f)

has_edge-remove_targets :
    (ins : Inbound) (e : Edge) (ts : List Text) (u : Text) (f : Edge)
    → has_edge (remove_targets ins e ts) u f
      ≡ (not (contains u ts && same_edge f e) && has_edge ins u f)
unfolding remove_targets
has_edge-remove_targets ins e [] u f = ground arith
has_edge-remove_targets ins e (t ∷ ts) u f =
    ground (arith, has_edge-remove_targets (remove ins t e) e ts u f, has_edge-remove ins t u e f)

abbrev edge : Text → Link → Edge
edge source l = record { source = source; attribute = l.attribute }

-- The edges of one source that its links stand for.
abbrev pub stands_for : Text → List Link → Text → Edge → Bool
stands_for source links u f = f.source == source && links_to links f.attribute u

has_edge-add_links :
    (ins : Inbound) (source : Text) (links : List Link) (u : Text) (f : Edge)
    → has_edge (add_links ins source links) u f ≡ (stands_for source links u f || has_edge ins u f)
unfolding add_links links_to
has_edge-add_links ins source [] u f = ground arith
has_edge-add_links ins source (l ∷ links) u f = ground (
  arith,
  has_edge-add_links (add_targets ins (edge source l) l.targets) source links u f,
  has_edge-add_targets ins (edge source l) l.targets u f,
  same_edge_lem f source l,
)

has_edge-remove_links :
    (ins : Inbound) (source : Text) (links : List Link) (u : Text) (f : Edge)
    → has_edge (remove_links ins source links) u f
      ≡ (not (stands_for source links u f) && has_edge ins u f)
unfolding remove_links links_to
has_edge-remove_links ins source [] u f = ground arith
has_edge-remove_links ins source (l ∷ links) u f = ground (
  arith,
  has_edge-remove_links (remove_targets ins (edge source l) l.targets) source links u f,
  has_edge-remove_targets ins (edge source l) l.targets u f,
  same_edge_lem f source l,
)

-- Relinking a source forgets what its links stood for and holds what they stand for now.
pub has_edge-relink :
    (ins : Inbound) (source : Text) (before after : List Link) (u : Text) (f : Edge)
    → has_edge (relink ins source before after) u f
      ≡ (stands_for source after u f || (not (stands_for source before u f) && has_edge ins u f))
unfolding relink
has_edge-relink ins source before after u f = ground (
  arith,
  has_edge-add_links (remove_links ins source before) source after u f,
  has_edge-remove_links ins source before u f,
)
