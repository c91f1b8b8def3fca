-- ===== src/Memory/Uniqueness.antt =====
-- internal/memory/store.go and unique_index.go: the index of unique values along creates and updates.
use scim_go.Prelude.{
  ℕ, Text, Bool, true, false, none, some, List, [], ◌∷◌, ◌==◌, list_eq, nat_eq, if◌then◌else◌,
  contains, not, ◌||◌, ◌≡◌, refl, arith, Option-cases, inl, inr, ap, ◌∙◌,
}
use scim_go.Prelude.Dict.{lookup, insert, lookup-insert}
use scim_go.Runtime.{Runtime}
use scim_go.Decode.{Json}
use scim_go.Errors
use scim_go.Core.Value.{Object}
use scim_go.Store.Record.{Document}
use scim_go.Memory.State.{Handle, Entry, Entries, IndexKey, Memory, bumped, tick, now}
use scim_go.Memory.Targets.{changed_targets}
use scim_go.Memory.Unique.{conflict, index_keys, remove_keys, key_eq}
use scim_go.Memory.Unique.Laws.{lookup-add_keys, lookup-remove_keys, conflict_free}
use scim_go.Memory.Entries.{links_of, touch, touch_one}
use scim_go.Memory.Mirror.{relinked}
use scim_go.Memory.Cases.{save_cases, update_cases}
use scim_go.Memory.Operations.{keys_of, next_entry, verify, commit, save, create, update}

module _ ⦃R : Runtime⦄ ⦃J : Json⦄ where
  -- The keys under which a resource is indexed, by the fields of the store that saved it.
  abbrev pub entry_keys : Entry → List IndexKey
  entry_keys e = index_keys e.schema.address e.body e.owner.fields

  abbrev pub keys_at : Entries → Text → List IndexKey
  keys_at es id = elim (lookup id es) [ none ↦ [] | some e ↦ entry_keys e ]

  -- Whether the index names the resource as the holder of the key.
  abbrev pub holds_key : Memory → Text → IndexKey → Bool
  holds_key m id k = elim (lookup k m.unique) [ none ↦ false | some h ↦ h == id ]

  -- Every key of every resource is in the index, with that resource as its holder.
  abbrev pub Indexed : Memory → Type 0
  Indexed m =
      (id : Text) (k : IndexKey)
      → (not (contains k (keys_at m.entries id)) || holds_key m id k) ≡ true

  holder_of :
      (m : Memory) (id : Text) (k : IndexKey)
      → Indexed m
      → contains k (keys_at m.entries id) ≡ true
      → lookup k m.unique ≡ some id
  holder_of m id k h held = ground (arith, h id k, held)

  -- Touching keeps the keys: it changes a time alone.
  keys_at-touch_one :
      (t : Text) (m : Memory) (id : Text)
      → keys_at (touch_one t m).entries id ≡ keys_at m.entries id
  unfolding touch_one
  keys_at-touch_one t m id = elim (Option-cases (lookup t m.entries)) [
    | inl n ↦ ground arith
    | inr (e, h) ↦
        ground (arith, lookup-insert id t (record e { updated = bumped m e.updated }) m.entries)
  ]

  keys_at-touch :
      (ids : List Text) (m : Memory) (id : Text)
      → keys_at (touch ids m).entries id ≡ keys_at m.entries id
  unfolding touch
  keys_at-touch [] m id = refl
  keys_at-touch (t ∷ ids) m id = keys_at-touch ids (touch_one t m) id ∙ keys_at-touch_one t m id

  unique-touch : (ids : List Text) (m : Memory) → (touch ids m).unique ≡ m.unique
  unfolding touch touch_one
  unique-touch [] m = refl
  unique-touch (t ∷ ids) m = unique-touch ids (touch_one t m) ∙ ground arith

  -- The store that writes a resource reads its keys as the one that wrote it before, and finds none
  -- in the zero entry.
  abbrev pub Owns : Handle → Memory → Text → Type 0
  Owns hd m id =
      (k : IndexKey)
      → contains k (keys_of hd (lookup id m.entries)) ≡ contains k (keys_at m.entries id)

  holder :
      (hd : Handle) (m : Memory) (at : Text) (next : Entry) (id : Text) (k : IndexKey)
      → Indexed m
      → Owns hd m at
      → conflict m.unique at (entry_keys next) ≡ none
      → contains k (keys_at (insert at next m.entries) id) ≡ true
      → (if contains k (entry_keys next)
          then some at
          else if contains k (keys_of hd (lookup at m.entries))
          then none
          else lookup k m.unique)
        ≡ some id
  holder hd m at next id k h o c held = ground (
    arith,
    lookup-insert id at next m.entries,
    holder_of m id k h,
    holder_of m at k h,
    o k,
    conflict_free m.unique at (entry_keys next) k c,
  )

  verify_keys :
      (hd : Handle) (m : Memory) (doc : Document) (next : Entry) (keys : List IndexKey)
      → next.owner ≡ hd
      → verify hd m doc next ≡ Errors.ok keys
      → (entry_keys next ≡ keys) × (conflict m.unique doc.id (entry_keys next) ≡ none)
  unfolding verify keys_of
  verify_keys hd m doc next keys same v =
      let kept = ap (λ o. index_keys next.schema.address next.body (Handle.fields o)) same in
      rw kept (ground arith)

  commit_holder :
      (hd : Handle) (m : Memory) (doc : Document) (next : Entry) (id : Text) (k : IndexKey)
      → Indexed m
      → Owns hd m doc.id
      → conflict m.unique doc.id (entry_keys next) ≡ none
      → contains k
          (keys_at (commit hd m doc (lookup doc.id m.entries) next (entry_keys next)).entries id)
        ≡ true
      → lookup k (commit hd m doc (lookup doc.id m.entries) next (entry_keys next)).unique ≡ some id
  unfolding commit
  commit_holder hd m doc next id k h o c held =
      let old = keys_of hd (lookup doc.id m.entries) in
      let ids = changed_targets (links_of m.entries doc.id) doc.links in
      rw (lookup-add_keys (remove_keys m.unique old) (entry_keys next) doc.id k) (
        rw (lookup-remove_keys m.unique old k) (
          holder hd m doc.id next id k h o c
            (rw (keys_at-touch ids (relinked m doc.id next) id) at held)))

  commit-Indexed :
      (hd : Handle) (m : Memory) (doc : Document) (next : Entry)
      → Indexed m
      → Owns hd m doc.id
      → conflict m.unique doc.id (entry_keys next) ≡ none
      → Indexed (commit hd m doc (lookup doc.id m.entries) next (entry_keys next))
  commit-Indexed hd m doc next h o c id k = ground (arith, commit_holder hd m doc next id k h o c)

  owner-next_entry :
      (hd : Handle) (m : Memory) (doc : Document) (body : Object) (created updated : ℕ)
      → (next_entry hd m doc body created updated).owner ≡ hd
  unfolding next_entry
  owner-next_entry hd m doc body created updated = refl

  save-Indexed :
      (hd : Handle) (m : Memory) (doc : Document) (created updated : ℕ)
      → Indexed m
      → Owns hd m doc.id
      → Indexed (save hd m doc created updated).1
  save-Indexed hd m doc created updated h o =
      save_cases Indexed hd m doc created updated h λ body keys v.
        let next = next_entry hd m doc body created updated in
        let (same, free) =
          verify_keys hd m doc next keys (owner-next_entry hd m doc body created updated) v in
        rw same at (commit-Indexed hd m doc next h o free)

  -- If the index knows the holder of every key, and the store reads the keys of what it writes over
  -- as they were written, the index knows the holder of every key after a Create, whether it succeeds
  -- or fails.
  pub create-Indexed :
      (hd : Handle) (m : Memory) (doc : Document)
      → Indexed m
      → Owns hd m doc.id
      → Indexed (create hd m doc).1
  unfolding create
  create-Indexed hd m doc h o = save-Indexed hd (tick m) doc (now m) (now m) h o

  -- If the index knows the holder of every key, and the store reads the keys of what it writes over
  -- as they were written, the index knows the holder of every key after an Update, whether it succeeds
  -- or fails.
  pub update-Indexed :
      (hd : Handle) (m : Memory) (doc : Document) (version : Text)
      → Indexed m
      → Owns hd m doc.id
      → Indexed (update hd m doc version).1
  update-Indexed hd m doc version h o =
      update_cases Indexed hd m doc version h (λ current _. save-Indexed hd (tick m) doc _ _ h o)
