-- ===== src/Memory/Acyclic.antt =====
-- internal/memory/store.go and entries.go: cycles of first links along creates, updates and deletes.
use scim_go.Prelude.{
  ℕ, Text, Bool, true, false, Option, List, [], ◌∷◌, ◌++◌, ◌==◌, ==_iff, list_eq, nat_eq,
  if◌then◌else◌, ◌&&◌, not, contains, delete_func, all, is_some, ◌≡◌, inl, inr, refl, arith,
  Option-cases,
}
use scim_go.Prelude.Dict.{lookup, lookup-insert, lookup-erase}
use scim_go.Runtime.{Runtime}
use scim_go.Decode.{Json}
use scim_go.Errors
use scim_go.Errors.{ok}
use scim_go.Core.Value.{Object}
use scim_go.Store.Link.{Link, link_diff}
use scim_go.Store.Link.Diff.{link_diff_lem}
use scim_go.Store.Record.{Document}
use scim_go.Memory.State.{Handle, Edge, Entry, Entries, IndexKey, Memory, tick, now}
use scim_go.Memory.Targets.{targets_of, changed_targets, all_targets}
use scim_go.Memory.Entries.{links_of, check_link, check_links, resolved}
use scim_go.Memory.Mirror.{links_of-touch, relinked}
use scim_go.Memory.Cycles.{FirstAcyclic, still-FirstAcyclic, shrinks-FirstAcyclic}
use scim_go.Memory.Reach.{follows, check_acyclic-follows}
use scim_go.Memory.Cases.{save_cases, update_cases, delete_cases}
use scim_go.Memory.Operations.{
  next_entry, verify, commit, save, create, update, delete, delete_entry, detach, unlinked,
  unlink_edge, unlink_edges, without_target,
}
use scim_go.Memory.Removal.{contains-delete, cut}
use scim_go.Memory.Inbound.{dropped}

-- Whether every link of the attribute is hard.
abbrev pub hard : Text → List Link → Bool
hard a links = all (λ l. not (l.attribute == a && l.soft)) links

delete_none :
    (p : Text → Bool) (xs : List Text) → ((x : Text) → p x ≡ false) → delete_func p xs ≡ xs
delete_none p [] none_go = refl
delete_none p (x ∷ xs) none_go = ground (arith, none_go x, delete_none p xs none_go)

targets_of-resolved :
    (es : Entries) (a : Text) (links : List Link)
    → hard a links ≡ true
    → targets_of (resolved es links) a ≡ targets_of links a
unfolding resolved targets_of
targets_of-resolved es a [] h = refl
targets_of-resolved es a (l ∷ links) h = ground (
  arith,
  targets_of-resolved es a links,
  delete_none (λ id. l.soft && not (is_some (lookup id es))) l.targets,
)

check_links_checked :
    (es : Entries) (id a : Text) (before links : List Link) (t : Text) (hops : List Text)
    → check_links es id before links ≡ ok tt
    → hard a links ≡ true
    → contains t (targets_of links a) ≡ true
    → contains t (targets_of before a) ≡ false
    → follows es a t hops id ≡ false
unfolding check_links check_link targets_of
check_links_checked es id a before [] t hops h k n o = absurd (ground arith)
check_links_checked es id a before (l ∷ links) t hops h k n o = ground (
  arith,
  check_links_checked es id a before links t hops,
  link_diff_lem (targets_of before l.attribute) l.targets t,
  check_acyclic-follows es id l.attribute (link_diff (targets_of before l.attribute) l.targets).0 t
      hops,
  ==_iff l.attribute a,
)

module _ ⦃R : Runtime⦄ ⦃J : Json⦄ where
  pub links-commit :
      (hd : Handle) (m : Memory) (doc : Document) (before : Option Entry) (next : Entry)
      (keys : List IndexKey) (id : Text)
      → links_of (commit hd m doc before next keys).entries id
        ≡ (if doc.id == id then next.links else links_of m.entries id)
  unfolding commit
  links-commit hd m doc before next keys id =
      rw
        (links_of-touch (changed_targets (links_of m.entries doc.id) doc.links)
          (relinked m doc.id next) id)
        (ground (arith, lookup-insert id doc.id next m.entries))

  verify_links :
      (hd : Handle) (m : Memory) (doc : Document) (next : Entry) (keys : List IndexKey)
      → verify hd m doc next ≡ Errors.ok keys
      → check_links m.entries doc.id (links_of m.entries doc.id) doc.links ≡ ok tt
  unfolding verify
  verify_links hd m doc next keys h = ground arith

  pub links-next_entry :
      (hd : Handle) (m : Memory) (doc : Document) (body : Object) (created updated : ℕ)
      → (next_entry hd m doc body created updated).links ≡ resolved m.entries doc.links
  unfolding next_entry
  links-next_entry hd m doc body created updated = refl

  commit-FirstAcyclic :
      (hd : Handle) (m : Memory) (doc : Document) (before : Option Entry) (next : Entry)
      (keys : List IndexKey) (a : Text)
      → FirstAcyclic m.entries a
      → hard a doc.links ≡ true
      → next.links ≡ resolved m.entries doc.links
      → check_links m.entries doc.id (links_of m.entries doc.id) doc.links ≡ ok tt
      → FirstAcyclic (commit hd m doc before next keys).entries a
  commit-FirstAcyclic hd m doc before next keys a acyclic k linked c =
      still-FirstAcyclic m.entries (commit hd m doc before next keys).entries a doc.id
        (λ id differ. ground (arith, links-commit hd m doc before next keys id)) acyclic
        (λ t hops n o.
          check_links_checked m.entries doc.id a (links_of m.entries doc.id) doc.links t hops c k
            (ground (
              arith,
              links-commit hd m doc before next keys doc.id,
              targets_of-resolved m.entries a doc.links k,
            ))
            o)

  save-FirstAcyclic :
      (hd : Handle) (m : Memory) (doc : Document) (created updated : ℕ) (a : Text)
      → FirstAcyclic m.entries a
      → hard a doc.links ≡ true
      → FirstAcyclic (save hd m doc created updated).1.entries a
  save-FirstAcyclic hd m doc created updated a acyclic k =
      save_cases (λ m'. FirstAcyclic m'.entries a) hd m doc created updated acyclic
        λ body keys v.
          let next = next_entry hd m doc body created updated in
          commit-FirstAcyclic hd m doc (lookup doc.id m.entries) next keys a acyclic k
            (links-next_entry hd m doc body created updated) (verify_links hd m doc next keys v)

  -- If the first links of an attribute form no cycle, they form none after a Create of a document whose links
  -- of the attribute are all hard, whether it succeeds or fails.
  pub create-FirstAcyclic :
      (hd : Handle) (m : Memory) (doc : Document) (a : Text)
      → FirstAcyclic m.entries a
      → hard a doc.links ≡ true
      → FirstAcyclic (create hd m doc).1.entries a
  unfolding create
  create-FirstAcyclic hd m doc a acyclic k =
      save-FirstAcyclic hd (tick m) doc (now m) (now m) a acyclic k

  -- If the first links of an attribute form no cycle, they form none after an Update of a document whose links
  -- of the attribute are all hard, whether it succeeds or fails.
  pub update-FirstAcyclic :
      (hd : Handle) (m : Memory) (doc : Document) (version a : Text)
      → FirstAcyclic m.entries a
      → hard a doc.links ≡ true
      → FirstAcyclic (update hd m doc version).1.entries a
  update-FirstAcyclic hd m doc version a acyclic k =
      update_cases (λ m'. FirstAcyclic m'.entries a) hd m doc version acyclic
        (λ current _. save-FirstAcyclic hd (tick m) doc _ _ a acyclic k)

targets_of-without_target :
    (b t a u : Text) (links : List Link)
    → contains u (targets_of (without_target b t links) a) ≡ true
    → contains u (targets_of links a) ≡ true
unfolding targets_of without_target
targets_of-without_target b t a u [] h = h
targets_of-without_target b t a u (l ∷ links) h =
    ground (arith, targets_of-without_target b t a u links, contains-delete t u l.targets)

module _ ⦃R : Runtime⦄ ⦃J : Json⦄ where
  unlink_edge-shrinks :
      (e : Edge) (target : Text) (m : Memory) (a id t : Text)
      → contains t (targets_of (links_of (unlink_edge e target m).entries id) a) ≡ true
      → contains t (targets_of (links_of m.entries id) a) ≡ true
  unfolding unlink_edge unlinked
  unlink_edge-shrinks e target m a id t = elim (Option-cases (lookup e.source m.entries)) [
    | inl n ↦ ground arith
    | inr (x, h) ↦ ground (
      arith,
      lookup-insert id e.source (unlinked e target x) m.entries,
      targets_of-without_target e.attribute target a t x.links,
    )
  ]

  unlink_edges-shrinks :
      (es : List Edge) (target : Text) (m : Memory) (a id t : Text)
      → contains t (targets_of (links_of (unlink_edges es target m).entries id) a) ≡ true
      → contains t (targets_of (links_of m.entries id) a) ≡ true
  unfolding unlink_edges
  unlink_edges-shrinks [] target m a id t h = h
  unlink_edges-shrinks (e ∷ es) target m a id t h =
      unlink_edge-shrinks e target m a id t
        (unlink_edges-shrinks es target (unlink_edge e target m) a id t h)

  delete_entry-shrinks :
      (hd : Handle) (m : Memory) (id : Text) (current : Entry) (a s t : Text)
      → contains t (targets_of (links_of (delete_entry hd m id current).entries s) a) ≡ true
      → contains t (targets_of (links_of m.entries s) a) ≡ true
  unfolding delete_entry detach targets_of
  delete_entry-shrinks hd m id current a s t h =
      let c = cut hd m id current in
      let (sources, detached) = detach id c in
      let kept = rw (links_of-touch (sources ++ all_targets current.links) detached s) at h in
      let (es, rest) = dropped c.inbound id in
      ground (
        arith,
        unlink_edges-shrinks es id (record c { inbound = rest }) a s t kept,
        lookup-erase s id m.entries,
      )

  -- If the first links of an attribute form no cycle, they form none after a Delete, whether it succeeds or
  -- fails.
  pub delete-FirstAcyclic :
      (hd : Handle) (m : Memory) (id version a : Text)
      → FirstAcyclic m.entries a
      → FirstAcyclic (delete hd m id version).1.entries a
  delete-FirstAcyclic hd m id version a acyclic =
      delete_cases (λ m'. FirstAcyclic m'.entries a) hd m id version acyclic
        λ current _.
          shrinks-FirstAcyclic m.entries (delete_entry hd m id current).entries a
            (delete_entry-shrinks hd m id current a) acyclic
