-- ===== src/Memory/Operations.antt =====
-- internal/memory/store.go and memory.go: the operations of the store, each a function from the state
-- to its result and the next state.
use scim_go.Prelude.{
  ℕ, pos, Text, true, Option, none, some, List, [], ◌∷◌, ◌++◌, ◌==◌, list_eq, nat_eq, if◌then◌else◌,
  ◌&&◌, not, contains, delete_func, map, text_lt,
}
use scim_go.Prelude.Dict.{lookup, insert, erase}
use scim_go.Prelude.Sort.{sort}
use scim_go.Runtime.{Runtime}
use scim_go.Decode.{Json, decode_object}
use scim_go.Errors.{Error, err_not_found, err_uniqueness, err_invalid_syntax}
use scim_go.Errors
use scim_go.Etag.{weak}
use scim_go.Core.Value.{Object, object, fields}
use scim_go.Store.Link.{Link}
use scim_go.Store.Reference.{Reference, unlink}
use scim_go.Store.Reference
use scim_go.Store.Record.{Document, Record, Relation}
use scim_go.Store.Embed.{embed}
use scim_go.Memory.State.{Handle, Entry, Edge, IndexKey, Memory, now, tick, bumped}
use scim_go.Memory.Targets.{targets_of, changed_targets, all_targets}
use scim_go.Memory.Inbound.{sources, dropped, relink}
use scim_go.Memory.Unique.{conflict, add_keys, remove_keys, index_keys}
use scim_go.Memory.Entries.{find, links_of, check_links, resolved, touch}

-- The errors of the store: those of SCIM, ErrNoMatch, and that of decode.Object.
pub data StoreError : Type 0 where
  scim : Error → StoreError
  no_match bad_body : StoreError

pub data Outcome (A : Type 0) : Type 0 where
  done : A → Outcome A
  failed : StoreError → Outcome A

-- Memory.targets
pub targets : Memory → Text → Entry → Reference → List Text
targets m id e r =
    if not (Reference.inverse r)
    then sort text_lt (targets_of e.links (Reference.name r))
    else sort text_lt (
        delete_func
          (λ source. elim (lookup source m.entries) [
            | none ↦ true
            | some s ↦ not (contains s.schema.name (Reference.types r))
          ])
          (sources m.inbound id (Reference.inverse_of r)))

-- Memory.kind
pub kind : Memory → Text → Reference → Text
kind m target r =
    if Reference.inverse r
    then []
    else elim (lookup target m.entries) [ none ↦ [] | some e ↦ e.schema.name ]

-- Memory.relations
unfoldable pub relations : Memory → Text → Entry → List Reference → List Relation
unfolding targets kind
relations m id e [] = []
relations m id e (r ∷ rs) =
    let rest = relations m id e rs in
    if Reference.soft r
    then rest
    else map (λ t. record { reference = r; id = t; kind = kind m t r }) (targets m id e r) ++ rest

-- `locate`: an empty version matches every one.
unfoldable pub locate : Handle → Memory → Text → Text → Option Entry
locate h m id version = elim (find m.entries id h.base) [
  | none ↦ none
  | some e ↦ if not (version == []) && not (weak (pos e.updated) == version) then none else some e
]

-- source.links[i].Targets without the target, in the links with the attribute
unfoldable pub without_target : Text → Text → List Link → List Link
without_target attribute target [] = []
without_target attribute target (l ∷ links) =
    (if l.attribute == attribute
      then record l { targets = delete_func (λ id. id == target) l.targets }
      else l)
    ∷ without_target attribute target links

module _ ⦃R : Runtime⦄ ⦃J : Json⦄ where
  -- Memory.record
  unfoldable pub record_of : Memory → Text → Entry → List Reference → Record
  record_of m id e references = record {
    id = id;
    body = embed e.raw (relations m id e references);
    created = e.created;
    updated = e.updated;
    version = weak (pos e.updated);
  }

  -- the keys of an entry, or of the zero entry where there is none, whose schema is nil
  unfoldable pub keys_of : Handle → Option Entry → List IndexKey
  keys_of h none = index_keys 0 [] h.fields
  keys_of h (some e) = index_keys e.schema.address e.body h.fields

  -- what `unlink` makes of the source of an edge
  unfoldable pub unlinked : Edge → Text → Entry → Entry
  unlinked e target s =
      let body = unlink (s.owner.base ∷ s.owner.extensions) s.body e.attribute in
      record s {
        links = without_target e.attribute target s.links;
        body = body;
        raw = J.marshal (object (fields body));
      }

  -- `unlink`. The source of an edge is held whenever the edges mirror the links; Go would fault on a
  -- missing one.
  unfoldable pub unlink_edge : Edge → Text → Memory → Memory
  unlink_edge e target m = elim (lookup e.source m.entries) [
    | none ↦ m
    | some s ↦ record m { entries = insert e.source (unlinked e target s) m.entries }
  ]

  unfoldable pub unlink_edges : List Edge → Text → Memory → Memory
  unlink_edges [] target m = m
  unlink_edges (e ∷ es) target m = unlink_edges es target (unlink_edge e target m)

  -- `detach`: what it returns, and the state after it
  unfoldable pub detach : Text → Memory → List Text × Memory
  detach target m =
      let (es, rest) = dropped m.inbound target in
      (map (λ (e : Edge). e.source) es, unlink_edges es target (record m { inbound = rest }))

  -- `verify`: the keys, or the error
  unfoldable pub verify : Handle → Memory → Document → Entry → Errors.Result (List IndexKey)
  verify h m doc next =
      let keys = keys_of h (some next) in
      elim (check_links m.entries doc.id (links_of m.entries doc.id) doc.links) [
        | Errors.err e ↦ Errors.err e
        | Errors.ok _ ↦ elim (conflict m.unique doc.id keys) [
          | some _ ↦ Errors.err err_uniqueness
          | none ↦ Errors.ok keys
        ]
      ]

  -- `commit`
  unfoldable pub commit : Handle → Memory → Document → Option Entry → Entry → List IndexKey → Memory
  commit h m doc before next keys =
      let old = links_of m.entries doc.id in
      let cleared = remove_keys m.unique (keys_of h before) in
      let linked = record m {
        inbound = relink m.inbound doc.id old next.links;
        entries = insert doc.id next m.entries;
      } in
      let touched = touch (changed_targets old doc.links) linked in
      record touched { unique = add_keys cleared keys doc.id }

  -- the entry that `save` builds from the times of `next`
  unfoldable pub next_entry : Handle → Memory → Document → Object → ℕ → ℕ → Entry
  next_entry h m doc body created updated = record {
    schema = h.base;
    owner = h;
    body = body;
    raw = doc.body;
    links = resolved m.entries doc.links;
    created = created;
    updated = updated;
  }

  -- `save` after verify
  unfoldable pub save_verified :
      Handle → Memory → Document → Entry → Errors.Result (List IndexKey) → Outcome Record × Memory
  save_verified h m doc next (Errors.err e) = (failed (scim e), m)
  save_verified h m doc next (Errors.ok keys) =
      let m' = commit h m doc (lookup doc.id m.entries) next keys in
      (done (record_of m' doc.id next doc.references), m')

  -- `save` after decode.Object
  unfoldable pub save_decoded :
      Handle → Memory → Document → ℕ → ℕ → Option Object → Outcome Record × Memory
  save_decoded h m doc created updated none = (failed bad_body, m)
  save_decoded h m doc created updated (some body) =
      let next = next_entry h m doc body created updated in
      save_verified h m doc next (verify h m doc next)

  -- `save`
  unfoldable pub save : Handle → Memory → Document → ℕ → ℕ → Outcome Record × Memory
  unfolding save_decoded save_verified
  save h m doc created updated = save_decoded h m doc created updated (decode_object doc.body)

  -- Find
  unfoldable pub find_record : Handle → Memory → Text → List Reference → Outcome Record
  find_record h m id references = elim (find m.entries id h.base) [
    | none ↦ failed (scim err_not_found)
    | some e ↦ done (record_of m id e references)
  ]

  -- Create
  unfoldable pub create : Handle → Memory → Document → Outcome Record × Memory
  create h m doc = save h (tick m) doc (now m) (now m)

  unfoldable pub update_located :
      Handle → Memory → Document → Option Entry → Outcome Record × Memory
  update_located h m doc none = (failed no_match, m)
  update_located h m doc (some current) =
      save h (tick m) doc current.created (bumped m current.updated)

  -- Update
  unfoldable pub update : Handle → Memory → Document → Text → Outcome Record × Memory
  unfolding update_located
  update h m doc version = update_located h m doc (locate h m doc.id version)

  -- the state after Delete has found the entry
  unfoldable pub delete_entry : Handle → Memory → Text → Entry → Memory
  delete_entry h m id current =
      let cut = record m {
        unique = remove_keys m.unique (keys_of h (some current));
        inbound = relink m.inbound id current.links [];
        entries = erase id m.entries;
      } in
      let (detached, m') = detach id cut in touch (detached ++ all_targets current.links) m'

  unfoldable pub delete_located :
      Handle → Memory → Text → Option Entry → Outcome (Unit {0}) × Memory
  delete_located h m id none = (failed no_match, m)
  delete_located h m id (some current) = (done tt, delete_entry h m id current)

  -- Delete
  unfoldable pub delete : Handle → Memory → Text → Text → Outcome (Unit {0}) × Memory
  unfolding delete_located
  delete h m id version = delete_located h m id (locate h m id version)
