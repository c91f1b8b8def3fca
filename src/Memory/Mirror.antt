-- ===== src/Memory/Mirror.antt =====
-- internal/memory: the table of inbound edges against the links of the resources, along creates and
-- updates.
use scim_go.Prelude.{
  ℕ, Text, Bool, Option, List, [], ◌∷◌, list_eq, nat_eq, ◌≡◌, refl, arith, ◌∙◌, Option-cases, inl,
  inr,
}
use scim_go.Prelude.Dict.{lookup, insert, lookup-insert}
use scim_go.Runtime.{Runtime}
use scim_go.Decode.{Json}
use scim_go.Store.Record.{Document}
use scim_go.Memory.State.{Handle, Entry, Entries, Edge, IndexKey, Memory, bumped, now, tick}
use scim_go.Memory.Targets.{changed_targets}
use scim_go.Memory.Inbound.{has_edge, links_to, relink}
use scim_go.Memory.Inbound.Laws.{has_edge-relink}
use scim_go.Memory.Entries.{links_of, touch, touch_one}
use scim_go.Memory.Cases.{save_cases, update_cases}
use scim_go.Memory.Operations.{commit, save, create, update}

-- Whether a resource links to a target by an attribute.
abbrev pub linked : Entries → Text → Text → Text → Bool
linked es source attribute target = links_to (links_of es source) attribute target

-- An edge is held exactly if its source is held and links to the target by the attribute.
abbrev pub Mirror : Memory → Type 0
Mirror m =
    (target : Text) (e : Edge)
    → has_edge m.inbound target e ≡ linked m.entries e.source e.attribute target

links_of-touch_one :
    (t : Text) (m : Memory) (id : Text)
    → links_of (touch_one t m).entries id ≡ links_of m.entries id
unfolding touch_one
links_of-touch_one t m id = elim (Option-cases (lookup t m.entries)) [
  | inl n ↦ ground arith
  | inr (e, h) ↦
      ground (arith, lookup-insert id t (record e { updated = bumped m e.updated }) m.entries)
]

-- Touching resources changes neither links nor edges.
pub links_of-touch :
    (ids : List Text) (m : Memory) (id : Text)
    → links_of (touch ids m).entries id ≡ links_of m.entries id
unfolding touch
links_of-touch [] m id = refl
links_of-touch (t ∷ ids) m id = links_of-touch ids (touch_one t m) id ∙ links_of-touch_one t m id

inbound-touch_one : (t : Text) (m : Memory) → (touch_one t m).inbound ≡ m.inbound
unfolding touch_one
inbound-touch_one t m = ground arith

pub inbound-touch : (ids : List Text) (m : Memory) → (touch ids m).inbound ≡ m.inbound
unfolding touch
inbound-touch [] m = refl
inbound-touch (t ∷ ids) m = inbound-touch ids (touch_one t m) ∙ inbound-touch_one t m

pub touch-Mirror : (ids : List Text) (m : Memory) → Mirror m → Mirror (touch ids m)
touch-Mirror ids m h target e =
    rw (inbound-touch ids m) (rw (links_of-touch ids m e.source) (h target e))

-- What `commit` writes before it touches the targets.
abbrev pub relinked : Memory → Text → Entry → Memory
relinked m id next = record m {
  inbound = relink m.inbound id (links_of m.entries id) next.links;
  entries = insert id next m.entries;
}

relinked-Mirror : (m : Memory) (id : Text) (next : Entry) → Mirror m → Mirror (relinked m id next)
relinked-Mirror m id next h target e = ground (
  arith,
  has_edge-relink m.inbound id (links_of m.entries id) next.links target e,
  lookup-insert e.source id next m.entries,
  h target e,
)

module _ ⦃R : Runtime⦄ ⦃J : Json⦄ where
  pub commit-Mirror :
      (hd : Handle) (m : Memory) (doc : Document) (before : Option Entry) (next : Entry)
      (keys : List IndexKey)
      → Mirror m
      → Mirror (commit hd m doc before next keys)
  unfolding commit
  commit-Mirror hd m doc before next keys h =
      touch-Mirror (changed_targets (links_of m.entries doc.id) doc.links) (relinked m doc.id next)
        (relinked-Mirror m doc.id next h)

  save-Mirror :
      (hd : Handle) (m : Memory) (doc : Document) (created updated : ℕ)
      → Mirror m
      → Mirror (save hd m doc created updated).1
  save-Mirror hd m doc created updated h =
      save_cases Mirror hd m doc created updated h
        (λ body keys _. commit-Mirror hd m doc _ _ keys h)

  -- If the inbound edges mirror the links, they do so after a Create, whether it succeeds or
  -- fails.
  pub create-Mirror :
      (hd : Handle) (m : Memory) (doc : Document) → Mirror m → Mirror (create hd m doc).1
  unfolding create
  create-Mirror hd m doc h = save-Mirror hd (tick m) doc (now m) (now m) h

  -- If the inbound edges mirror the links, they do so after an Update, whether it succeeds or
  -- fails.
  pub update-Mirror :
      (hd : Handle) (m : Memory) (doc : Document) (version : Text)
      → Mirror m
      → Mirror (update hd m doc version).1
  update-Mirror hd m doc version h =
      update_cases Mirror hd m doc version h (λ current _. save-Mirror hd (tick m) doc _ _ h)
