-- ===== src/Memory/Removal.antt =====
-- internal/memory/store.go and memory.go: what Delete does to the links between resources.
use scim_go.Prelude.{
  Text, some, List, [], ◌∷◌, ◌++◌, ◌==◌, list_eq, nat_eq, ◌&&◌, not, contains, delete_func, ◌≡◌,
  refl, arith, ◌∙◌, Option-cases, inl, inr, any, is_some, ==_iff,
}
use scim_go.Prelude.Dict.{lookup, erase, lookup-insert, lookup-erase}
use scim_go.Runtime.{Runtime}
use scim_go.Decode.{Json}
use scim_go.Store.Link.{Link}
use scim_go.Memory.State.{Handle, Entry, Edge, Memory, bumped}
use scim_go.Memory.Targets.{all_targets}
use scim_go.Memory.Inbound.{has_edge, links_to, relink, dropped, edges, same_edge}
use scim_go.Memory.Inbound.Laws.{has_edge-relink, has_edge-dropped}
use scim_go.Memory.Unique.{remove_keys}
use scim_go.Memory.Entries.{find, touch, touch_one}
use scim_go.Memory.Mirror.{linked, Mirror, touch-Mirror, links_of-touch}
use scim_go.Memory.Cases.{delete_cases}
use scim_go.Memory.Operations.{
  keys_of, delete, delete_located, delete_entry, unlinked, unlink_edge, unlink_edges,
  without_target, detach, locate,
}

pub contains-delete :
    (t u : Text) (ts : List Text)
    → contains u (delete_func (λ id. id == t) ts) ≡ (contains u ts && not (u == t))
contains-delete t u [] = refl
contains-delete t u (x ∷ ts) = ground (arith, contains-delete t u ts)

links_to-without_target :
    (a t : Text) (links : List Link) (b u : Text)
    → links_to (without_target a t links) b u ≡ (links_to links b u && not (a == b && u == t))
unfolding links_to without_target
links_to-without_target a t [] b u = refl
links_to-without_target a t (l ∷ links) b u =
    ground (arith, links_to-without_target a t links b u, contains-delete t u l.targets)

is_held-touch_one :
    (t : Text) (m : Memory) (s : Text)
    → is_some (lookup s (touch_one t m).entries) ≡ is_some (lookup s m.entries)
unfolding touch_one
is_held-touch_one t m s = elim (Option-cases (lookup t m.entries)) [
  | inl n ↦ ground arith
  | inr (e, h) ↦
      ground
        (arith, lookup-insert s t (record e { updated = bumped m e.updated }) m.entries, ==_iff t s)
]

is_held-touch :
    (ids : List Text) (m : Memory) (s : Text)
    → is_some (lookup s (touch ids m).entries) ≡ is_some (lookup s m.entries)
unfolding touch
is_held-touch [] m s = refl
is_held-touch (t ∷ ids) m s = is_held-touch ids (touch_one t m) s ∙ is_held-touch_one t m s

abbrev edge : Text → Text → Edge
edge source attribute = record { source = source; attribute = attribute }

has_edge_lem :
    (m : Memory) (id s b : Text)
    → has_edge m.inbound id (edge s b) ≡ any (same_edge (edge s b)) (edges m.inbound id)
unfolding has_edge
has_edge_lem m id s b = refl

module _ ⦃R : Runtime⦄ ⦃J : Json⦄ where
  linked-unlink_edge :
      (e : Edge) (t : Text) (m : Memory) (s b u : Text)
      → linked (unlink_edge e t m).entries s b u
        ≡ (linked m.entries s b u && not (same_edge (edge s b) e && u == t))
  unfolding unlink_edge unlinked same_edge links_to
  linked-unlink_edge e t m s b u = elim (Option-cases (lookup e.source m.entries)) [
    | inl n ↦ ground arith
    | inr (x, h) ↦ ground (
      arith,
      lookup-insert s e.source (unlinked e t x) m.entries,
      links_to-without_target e.attribute t x.links b u,
    )
  ]

  is_held-unlink_edge :
      (e : Edge) (t : Text) (m : Memory) (s : Text)
      → is_some (lookup s (unlink_edge e t m).entries) ≡ is_some (lookup s m.entries)
  unfolding unlink_edge
  is_held-unlink_edge e t m s = elim (Option-cases (lookup e.source m.entries)) [
    | inl n ↦ ground arith
    | inr (x, h) ↦
        ground (arith, lookup-insert s e.source (unlinked e t x) m.entries, ==_iff e.source s)
  ]

  is_held-unlink_edges :
      (es : List Edge) (t : Text) (m : Memory) (s : Text)
      → is_some (lookup s (unlink_edges es t m).entries) ≡ is_some (lookup s m.entries)
  unfolding unlink_edges
  is_held-unlink_edges [] t m s = refl
  is_held-unlink_edges (e ∷ es) t m s =
      is_held-unlink_edges es t (unlink_edge e t m) s ∙ is_held-unlink_edge e t m s

  linked-unlink_edges :
      (es : List Edge) (t : Text) (m : Memory) (s b u : Text)
      → linked (unlink_edges es t m).entries s b u
        ≡ (linked m.entries s b u && not (any (same_edge (edge s b)) es && u == t))
  unfolding unlink_edges
  linked-unlink_edges [] t m s b u = ground arith
  linked-unlink_edges (e ∷ es) t m s b u =
      ground
        (arith, linked-unlink_edges es t (unlink_edge e t m) s b u, linked-unlink_edge e t m s b u)

  inbound-unlink_edges :
      (es : List Edge) (t : Text) (m : Memory) → (unlink_edges es t m).inbound ≡ m.inbound
  unfolding unlink_edges
  inbound-unlink_edges [] t m = refl
  inbound-unlink_edges (e ∷ es) t m =
      inbound-unlink_edges es t (unlink_edge e t m) ∙ (unfold unlink_edge in ground arith)

  -- The state of Delete before it detaches the resource.
  abbrev pub cut : Handle → Memory → Text → Entry → Memory
  cut hd m id current = record m {
    unique = remove_keys m.unique (keys_of hd (some current));
    inbound = relink m.inbound id current.links [];
    entries = erase id m.entries;
  }

  cut-Mirror :
      (hd : Handle) (m : Memory) (id : Text) (current : Entry)
      → lookup id m.entries ≡ some current
      → Mirror m
      → Mirror (cut hd m id current)
  unfolding links_to
  cut-Mirror hd m id current l h target e = ground (
    arith,
    has_edge-relink m.inbound id current.links [] target e,
    lookup-erase e.source id m.entries,
    h target e,
  )

  linked-detach :
      (id : Text) (m : Memory) (s b u : Text)
      → Mirror m
      → linked (detach id m).1.entries s b u ≡ (linked m.entries s b u && not (u == id))
  unfolding detach dropped
  linked-detach id m s b u h = ground (
    arith,
    linked-unlink_edges (edges m.inbound id) id (record m { inbound = erase id m.inbound }) s b u,
    has_edge_lem m id s b,
    h id (edge s b),
  )

  detach-Mirror : (id : Text) (m : Memory) → Mirror m → Mirror (detach id m).1
  unfolding detach dropped
  detach-Mirror id m h target e = ground (
    arith,
    linked-unlink_edges (edges m.inbound id) id (record m { inbound = erase id m.inbound }) e.source
        e.attribute target,
    inbound-unlink_edges (edges m.inbound id) id (record m { inbound = erase id m.inbound }),
    has_edge_lem m id e.source e.attribute,
    has_edge-dropped m.inbound id target e,
    h id e,
    h target e,
  )

  locate-lookup :
      (hd : Handle) (m : Memory) (id version : Text) (current : Entry)
      → locate hd m id version ≡ some current
      → lookup id m.entries ≡ some current
  unfolding locate find
  locate-lookup hd m id version current h = ground arith

  linked-delete_entry :
      (hd : Handle) (m : Memory) (id version : Text) (current : Entry)
      → Mirror m
      → locate hd m id version ≡ some current
      → (s b u : Text)
      → linked (delete_entry hd m id current).entries s b u
        ≡ (linked m.entries s b u && not (s == id) && not (u == id))
  unfolding delete_entry links_to
  linked-delete_entry hd m id version current h l s b u =
      let found = locate-lookup hd m id version current l in
      let c = cut hd m id current in
      rw (links_of-touch ((detach id c).0 ++ all_targets current.links) (detach id c).1 s) (
        ground (
          arith,
          linked-detach id c s b u (cut-Mirror hd m id current found h),
          lookup-erase s id m.entries,
        ))

  is_held-delete_entry :
      (hd : Handle) (m : Memory) (id : Text) (current : Entry) (s : Text)
      → is_some (lookup s (delete_entry hd m id current).entries)
        ≡ (is_some (lookup s m.entries) && not (s == id))
  unfolding delete_entry detach dropped
  is_held-delete_entry hd m id current s =
      let c = cut hd m id current in
      ground (
        arith,
        is_held-touch ((detach id c).0 ++ all_targets current.links) (detach id c).1 s,
        is_held-unlink_edges (edges c.inbound id) id (record c { inbound = erase id c.inbound }) s,
        lookup-erase s id m.entries,
        ==_iff s id,
        ==_iff id s,
      )

  -- While the edges mirror the links, a Delete that finds its resource removes it and no other resource,
  -- with every link from it and every link to it, and no other link.
  pub linked-delete :
      (hd : Handle) (m : Memory) (id version : Text) (current : Entry) (s b u : Text)
      → Mirror m
      → locate hd m id version ≡ some current
      → (is_some (lookup s (delete hd m id version).1.entries)
          ≡ (is_some (lookup s m.entries) && not (s == id)))
        × (linked (delete hd m id version).1.entries s b u
            ≡ (linked m.entries s b u && not (s == id) && not (u == id)))
  unfolding delete delete_located
  linked-delete hd m id version current s b u h l = rw l (
    is_held-delete_entry hd m id current s,
    linked-delete_entry hd m id version current h l s b u,
  )

  -- If the inbound edges mirror the links, they do so after a Delete, whether it succeeds or
  -- fails.
  pub delete-Mirror :
      (hd : Handle) (m : Memory) (id version : Text) → Mirror m → Mirror (delete hd m id version).1
  unfolding delete_entry
  delete-Mirror hd m id version h = delete_cases Mirror hd m id version h λ current l.
      touch-Mirror ((detach id (cut hd m id current)).0 ++ all_targets current.links) _ (
        detach-Mirror id (cut hd m id current)
          (cut-Mirror hd m id current (locate-lookup hd m id version current l) h))
