-- ===== src/Memory/Chains/Kept.antt =====
-- internal/memory/store.go: cycles of hard links along creates, updates and deletes.
use scim_go.Prelude.{
  ℕ, Text, true, List, [], ◌∷◌, ◌++◌, list_eq, nat_eq, ◌≡◌, refl, arith, Option-cases, inl, inr,
}
use scim_go.Prelude.Dict.{lookup, lookup-insert, lookup-erase}
use scim_go.Runtime.{Runtime}
use scim_go.Decode.{Json}
use scim_go.Store.Link.{Link}
use scim_go.Store.Record.{Document}
use scim_go.Memory.State.{Handle, Edge, Entry, Entries, Memory, tick, now}
use scim_go.Memory.Targets.{all_targets}
use scim_go.Memory.Inbound.{dropped}
use scim_go.Memory.Entries.{resolved}
use scim_go.Memory.Mirror.{links_of-touch}
use scim_go.Memory.Cases.{save_cases, update_cases, delete_cases}
use scim_go.Memory.Operations.{
  next_entry, save, create, update, delete, delete_entry, detach, unlinked, unlink_edge,
  unlink_edges, without_target,
}
use scim_go.Memory.Removal.{cut}
use scim_go.Memory.Acyclic.{
  hard, links-commit, links-next_entry, create-FirstAcyclic, update-FirstAcyclic,
  delete-FirstAcyclic,
}
use scim_go.Memory.Chains.{has_none, single, Singled, Acyclic, first-Acyclic, FirstAcyclic-all}

has_none-resolved :
    (es : Entries) (a : Text) (links : List Link)
    → has_none a (resolved es links) ≡ has_none a links
unfolding resolved
has_none-resolved es a [] = refl
has_none-resolved es a (l ∷ links) = ground (arith, has_none-resolved es a links)

single-resolved :
    (es : Entries) (a : Text) (links : List Link) → single a (resolved es links) ≡ single a links
unfolding resolved
single-resolved es a [] = refl
single-resolved es a (l ∷ links) =
    ground (arith, single-resolved es a links, has_none-resolved es a links)

has_none-without_target :
    (b t a : Text) (links : List Link) → has_none a (without_target b t links) ≡ has_none a links
unfolding without_target
has_none-without_target b t a [] = refl
has_none-without_target b t a (l ∷ links) = ground (arith, has_none-without_target b t a links)

single-without_target :
    (b t a : Text) (links : List Link) → single a (without_target b t links) ≡ single a links
unfolding without_target
single-without_target b t a [] = refl
single-without_target b t a (l ∷ links) =
    ground (arith, single-without_target b t a links, has_none-without_target b t a links)

module _ ⦃R : Runtime⦄ ⦃J : Json⦄ (a : Text) where
  save-Singled :
      (hd : Handle) (m : Memory) (doc : Document) (created updated : ℕ)
      → Singled m.entries a
      → single a doc.links ≡ true
      → Singled (save hd m doc created updated).1.entries a
  save-Singled hd m doc created updated h k =
      save_cases (λ m'. Singled m'.entries a) hd m doc created updated h
        λ body keys _ id.
          let next = next_entry hd m doc body created updated in
          ground (
            arith,
            links-commit hd m doc (lookup doc.id m.entries) next keys id,
            links-next_entry hd m doc body created updated,
            single-resolved m.entries a doc.links,
            h id,
          )

  unlink_edge-Singled :
      (e : Edge) (target : Text) (m : Memory)
      → Singled m.entries a
      → Singled (unlink_edge e target m).entries a
  unfolding unlink_edge unlinked
  unlink_edge-Singled e target m h id = elim (Option-cases (lookup e.source m.entries)) [
    | inl n ↦ ground (arith, h id)
    | inr (x, f) ↦ ground (
      arith,
      h id,
      h e.source,
      lookup-insert id e.source (unlinked e target x) m.entries,
      single-without_target e.attribute target a x.links,
    )
  ]

  unlink_edges-Singled :
      (es : List Edge) (target : Text) (m : Memory)
      → Singled m.entries a
      → Singled (unlink_edges es target m).entries a
  unfolding unlink_edges
  unlink_edges-Singled [] target m h = h
  unlink_edges-Singled (e ∷ es) target m h =
      unlink_edges-Singled es target (unlink_edge e target m) (unlink_edge-Singled e target m h)

  cut-Singled :
      (hd : Handle) (m : Memory) (id : Text) (current : Entry)
      → Singled m.entries a
      → Singled (cut hd m id current).entries a
  cut-Singled hd m id current h s = ground (arith, h s, lookup-erase s id m.entries)

  delete_entry-Singled :
      (hd : Handle) (m : Memory) (id : Text) (current : Entry)
      → Singled m.entries a
      → Singled (delete_entry hd m id current).entries a
  unfolding delete_entry detach
  delete_entry-Singled hd m id current h s =
      let c = cut hd m id current in
      let (sources, detached) = detach id c in
      let (es, rest) = dropped c.inbound id in
      rw (links_of-touch (sources ++ all_targets current.links) detached s)
        (unlink_edges-Singled es id (record c { inbound = rest }) (cut-Singled hd m id current h) s)

  -- If the links of an attribute form no cycle and no resource has two, this stays so after a Create of
  -- a document that has at most one link of the attribute, and none that is soft, whether it succeeds
  -- or fails.
  pub create-Acyclic :
      (hd : Handle) (m : Memory) (doc : Document)
      → Acyclic m.entries a
      → Singled m.entries a
      → hard a doc.links ≡ true
      → single a doc.links ≡ true
      → Acyclic (create hd m doc).1.entries a × Singled (create hd m doc).1.entries a
  create-Acyclic hd m doc acyclic singled h k =
      let after : Singled (create hd m doc).1.entries a =
        unfold create in save-Singled hd (tick m) doc (now m) (now m) singled k in
      (
        first-Acyclic (create hd m doc).1.entries a after
            (create-FirstAcyclic hd m doc a (FirstAcyclic-all m.entries a singled acyclic) h),
        after,
      )

  -- If the links of an attribute form no cycle and no resource has two, this stays so after an Update to
  -- a document that has at most one link of the attribute, and none that is soft, whether it succeeds
  -- or fails.
  pub update-Acyclic :
      (hd : Handle) (m : Memory) (doc : Document) (version : Text)
      → Acyclic m.entries a
      → Singled m.entries a
      → hard a doc.links ≡ true
      → single a doc.links ≡ true
      → Acyclic (update hd m doc version).1.entries a
        × Singled (update hd m doc version).1.entries a
  update-Acyclic hd m doc version acyclic singled h k =
      let after : Singled (update hd m doc version).1.entries a =
        update_cases (λ m'. Singled m'.entries a) hd m doc version singled
          (λ current _. save-Singled hd (tick m) doc _ _ singled k) in
      (
        first-Acyclic (update hd m doc version).1.entries a after (
            update-FirstAcyclic hd m doc version a (FirstAcyclic-all m.entries a singled acyclic)
              h),
        after,
      )

  -- If the links of an attribute form no cycle and no resource has two, this stays so after a Delete,
  -- whether it succeeds or fails.
  pub delete-Acyclic :
      (hd : Handle) (m : Memory) (id version : Text)
      → Acyclic m.entries a
      → Singled m.entries a
      → Acyclic (delete hd m id version).1.entries a × Singled (delete hd m id version).1.entries a
  delete-Acyclic hd m id version acyclic singled =
      let after : Singled (delete hd m id version).1.entries a =
        delete_cases (λ m'. Singled m'.entries a) hd m id version singled
          (λ current _. delete_entry-Singled hd m id current singled) in
      (
        first-Acyclic (delete hd m id version).1.entries a after
            (delete-FirstAcyclic hd m id version a (FirstAcyclic-all m.entries a singled acyclic)),
        after,
      )
