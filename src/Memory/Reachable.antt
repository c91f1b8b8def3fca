-- ===== src/Memory/Reachable.antt =====
-- internal/memory and pkg/store: the states that the store reaches from an empty one by the
-- operations of its clients, whose documents Encode makes.
use scim_go.Prelude.{
  ℕ, Text, Bool, true, List, ◌≡◌, refl, ◌&&◌, list_eq, nat_eq, arith, sym, ap, ◌∙◌,
}
use scim_go.Runtime.{Runtime}
use scim_go.Decode.{Json}
use scim_go.Errors.{ok}
use scim_go.Core.Value.{Object}
use scim_go.Store.Record.{Document}
use scim_go.Store.Reference.{Reference}
use scim_go.Store.Encode.{encode, extract_links, stored, document}
use scim_go.Store.Encode.Targets.{hard_only, single_name, bound_ok, extract_links-hard}
use scim_go.Memory.State.{Handle, Memory, new_memory}
use scim_go.Prelude.Dict.{lookup}
use scim_go.Memory.Inbound.{links_to, has_edge}
use scim_go.Memory.Operations.{create, update, delete}
use scim_go.Memory.Mirror.{Mirror, create-Mirror, update-Mirror}
use scim_go.Memory.Removal.{delete-Mirror}
use scim_go.Memory.Acyclic.{hard}
use scim_go.Memory.Chains.{Acyclic, Singled, single}
use scim_go.Memory.Chains.Kept.{create-Acyclic, update-Acyclic, delete-Acyclic}
use scim_go.Memory.Chains.Encoded.{extract_links-single}

links_of_document : (d doc : Document) → ok d ≡ ok doc → d.links ≡ doc.links
links_of_document d doc h = ground (arith, h)

module _ ⦃R : Runtime⦄ ⦃J : Json⦄ where
  -- One operation of a client by one of the handles that it has. Encode makes the documents, by the
  -- references of the handle.
  pub data Step (has : Handle → Bool) : Memory → Memory → Type 0 where
    creates :
        (h : Handle) (m : Memory) (id : Text) (o : Object) (doc : Document)
        → has h ≡ true
        → encode id o h.references ≡ ok doc
        → Step has m (create h m doc).1
    updates :
        (h : Handle) (m : Memory) (id : Text) (o : Object) (doc : Document) (version : Text)
        → has h ≡ true
        → encode id o h.references ≡ ok doc
        → Step has m (update h m doc version).1
    deletes :
        (h : Handle) (m : Memory) (id version : Text)
        → has h ≡ true
        → Step has m (delete h m id version).1

  pub data Reachable (has : Handle → Bool) (start : Memory) : Memory → Type 0 where
    here : Reachable has start start
    next : {m n : Memory} → Reachable has start m → Step has m n → Reachable has start n

  Step-Mirror : (has : Handle → Bool) {m n : Memory} → Step has m n → Mirror m → Mirror n
  Step-Mirror has (creates h m id o doc u e) mirror = create-Mirror h m doc mirror
  Step-Mirror has (updates h m id o doc version u e) mirror = update-Mirror h m doc version mirror
  Step-Mirror has (deletes h m id version u) mirror = delete-Mirror h m id version mirror

  new-Mirror : (clock : ℕ → ℕ) → Mirror (new_memory clock)
  unfolding links_to has_edge lookup
  new-Mirror clock target e = refl

  reached-Mirror :
      (has : Handle → Bool) {start m : Memory} → Mirror start → Reachable has start m → Mirror m
  reached-Mirror has mirror here = mirror
  reached-Mirror has mirror (next r step) = Step-Mirror has step (reached-Mirror has mirror r)

  -- In every state that clients reach from the empty store by Create, Update and Delete, in any order
  -- and with any results, the inbound edges mirror the links.
  pub Reachable-Mirror :
      (has : Handle → Bool) (clock : ℕ → ℕ) (m : Memory)
      → Reachable has (new_memory clock) m
      → Mirror m
  Reachable-Mirror has clock m r = reached-Mirror has (new-Mirror clock) r

  encode-hard :
      (a id : Text) (o : Object) (rs : List Reference) (doc : Document)
      → hard_only a rs ≡ true
      → encode id o rs ≡ ok doc
      → hard a doc.links ≡ true
  unfolding encode
  encode-hard a id o rs doc k h =
      let (found, made, e) =
        bound_ok (extract_links id (stored o) rs) (λ f. ok (document id f)) doc h in
      ap (λ l. hard a l) (sym (links_of_document (document id found) doc e))
      ∙ extract_links-hard a id (stored o) rs found k made

  encode-single :
      (a id : Text) (o : Object) (rs : List Reference) (doc : Document)
      → single_name a rs ≡ true
      → encode id o rs ≡ ok doc
      → single a doc.links ≡ true
  unfolding encode
  encode-single a id o rs doc k h =
      let (found, made, e) =
        bound_ok (extract_links id (stored o) rs) (λ f. ok (document id f)) doc h in
      ap (λ l. single a l) (sym (links_of_document (document id found) doc e))
      ∙ extract_links-single a id (stored o) rs found k made

  -- Whether a handle declares the attribute by one reference at most, in its schema and in the
  -- extensions together, and by none that is soft.
  abbrev pub hard_handle : Text → Handle → Bool
  hard_handle a h = hard_only a h.references && single_name a h.references

  -- No cycle, and no resource with two links of the attribute
  abbrev Kept : Text → Memory → Type 0
  Kept a m = Acyclic m.entries a × Singled m.entries a

  Step-Kept : (a : Text) {m n : Memory} → Step (hard_handle a) m n → Kept a m → Kept a n
  Step-Kept a (creates h m id o doc u e) (acyclic, singled) =
      create-Acyclic a h m doc acyclic singled
        (encode-hard a id o h.references doc (ground arith) e)
        (encode-single a id o h.references doc (ground arith) e)
  Step-Kept a (updates h m id o doc version u e) (acyclic, singled) =
      update-Acyclic a h m doc version acyclic singled
        (encode-hard a id o h.references doc (ground arith) e)
        (encode-single a id o h.references doc (ground arith) e)
  Step-Kept a (deletes h m id version u) (acyclic, singled) =
      delete-Acyclic a h m id version acyclic singled

  new-Kept : (clock : ℕ → ℕ) (a : Text) → Kept a (new_memory clock)
  unfolding links_to lookup
  new-Kept clock a = (λ id t hops. refl, λ id. refl)

  reached-Kept :
      (a : Text) {start m : Memory} → Kept a start → Reachable (hard_handle a) start m → Kept a m
  reached-Kept a kept here = kept
  reached-Kept a kept (next r step) = Step-Kept a step (reached-Kept a kept r)

  -- In every state that clients reach from the empty store by Create, Update and Delete of encoded
  -- resources, the links of an attribute form no cycle, if no handle declares it as a soft reference
  -- and none declares it twice, as in its schema and an extension.
  pub Reachable-Acyclic :
      (a : Text) (clock : ℕ → ℕ) (m : Memory)
      → Reachable (hard_handle a) (new_memory clock) m
      → Acyclic m.entries a
  Reachable-Acyclic a clock m r = (reached-Kept a (new-Kept clock a) r).0
