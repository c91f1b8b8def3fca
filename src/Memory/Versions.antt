-- ===== src/Memory/Versions.antt =====
-- internal/memory/store.go: the versions of a resource along updates.
use scim_go.Prelude.{
  ℕ, suc, ◌≤◌, Text, Bool, true, false, Option, none, some, List, [], ◌∷◌, ==_iff, list_eq, nat_eq,
  leb, pos, ◌≡◌, ◌≢◌, refl, arith, Option-cases, inl, inr, ap, sym, ◌∙◌,
}
use scim_go.Prelude.Dict.{lookup, lookup-insert}
use scim_go.Runtime.{Runtime}
use scim_go.Decode.{Json, decode_object}
use scim_go.Errors
use scim_go.Etag.{weak}
use scim_go.Etag.RoundTrip.{weak-injective, weak_nonempty}
use scim_go.Core.Value.{Object}
use scim_go.Store.Record.{Document, Record}
use scim_go.Memory.State.{Handle, Entry, Entries, IndexKey, Memory, bumped, bumped_grows, tick}
use scim_go.Memory.Targets.{changed_targets}
use scim_go.Memory.Entries.{find, links_of, touch, touch_one}
use scim_go.Memory.Mirror.{relinked}
use scim_go.Memory.Operations.{
  done, failed, no_match, next_entry, verify, commit, save, save_decoded, save_verified, update,
  update_located, locate,
}

-- Whether the resource is held, with a time of at least `time`.
abbrev pub held_since : Entries → Text → ℕ → Bool
held_since es id time = elim (lookup id es) [ none ↦ false | some e ↦ leb time e.updated ]

touch_one_since :
    (t : Text) (m : Memory) (id : Text) (time : ℕ)
    → held_since m.entries id time ≡ true
    → held_since (touch_one t m).entries id time ≡ true
unfolding touch_one
touch_one_since t m id time h = elim (Option-cases (lookup t m.entries)) [
  | inl n ↦ ground arith
  | inr (e, l) ↦ ground (
    arith,
    lookup-insert id t (record e { updated = bumped m e.updated }) m.entries,
    bumped_grows m e.updated,
  )
]

touch_since :
    (ids : List Text) (m : Memory) (id : Text) (time : ℕ)
    → held_since m.entries id time ≡ true
    → held_since (touch ids m).entries id time ≡ true
unfolding touch
touch_since [] m id time h = h
touch_since (t ∷ ids) m id time h =
    touch_since ids (touch_one t m) id time (touch_one_since t m id time h)

earlier :
    (es : Entries) (id : Text) (early late : ℕ)
    → early ≤ late
    → held_since es id late ≡ true
    → held_since es id early ≡ true
earlier es id early late h since = elim (Option-cases (lookup id es)) [
  | inl n ↦ ground arith
  | inr (e, l) ↦ ground arith
]

module _ ⦃R : Runtime⦄ ⦃J : Json⦄ where
  commit_since :
      (hd : Handle) (m : Memory) (doc : Document) (before : Option Entry) (next : Entry)
      (keys : List IndexKey)
      → held_since (commit hd m doc before next keys).entries doc.id next.updated ≡ true
  unfolding commit
  commit_since hd m doc before next keys =
      touch_since (changed_targets (links_of m.entries doc.id) doc.links) (relinked m doc.id next)
        doc.id next.updated (ground (arith, lookup-insert doc.id doc.id next m.entries))

  save_verified_since :
      (hd : Handle) (m : Memory) (doc : Document) (next : Entry) (v : Errors.Result (List IndexKey))
      (r : Record)
      → (save_verified hd m doc next v).0 ≡ done r
      → held_since (save_verified hd m doc next v).1.entries doc.id next.updated ≡ true
  unfolding save_verified
  save_verified_since hd m doc next (Errors.err e) r h = ground arith
  save_verified_since hd m doc next (Errors.ok keys) r h =
      commit_since hd m doc (lookup doc.id m.entries) next keys

  save_decoded_since :
      (hd : Handle) (m : Memory) (doc : Document) (created updated : ℕ) (d : Option Object)
      (r : Record)
      → (save_decoded hd m doc created updated d).0 ≡ done r
      → held_since (save_decoded hd m doc created updated d).1.entries doc.id updated ≡ true
  unfolding save_decoded next_entry
  save_decoded_since hd m doc created updated none r h = ground arith
  save_decoded_since hd m doc created updated (some body) r h =
      let next = next_entry hd m doc body created updated in
      save_verified_since hd m doc next (verify hd m doc next) r h

  save_since :
      (hd : Handle) (m : Memory) (doc : Document) (created updated : ℕ) (r : Record)
      → (save hd m doc created updated).0 ≡ done r
      → held_since (save hd m doc created updated).1.entries doc.id updated ≡ true
  unfolding save
  save_since hd m doc created updated r h =
      save_decoded_since hd m doc created updated (decode_object doc.body) r h

  locate_version :
      (hd : Handle) (m : Memory) (id version : Text) (current : Entry)
      → version ≢ []
      → locate hd m id version ≡ some current
      → weak (pos current.updated) ≡ version
  unfolding locate
  locate_version hd m id version current named h =
      ground (arith, (==_iff version []).0, (==_iff (weak (pos current.updated)) version).0)

  outdated :
      (hd : Handle) (m : Memory) (id : Text) (old : ℕ)
      → held_since m.entries id (suc old) ≡ true
      → locate hd m id (weak (pos old)) ≡ none
  unfolding locate find
  outdated hd m id old h = elim (Option-cases (lookup id m.entries)) [
    | inl n ↦ ground arith
    | inr (e, l) ↦ ground (
      arith,
      weak_nonempty (pos old),
      (==_iff (weak (pos e.updated)) (weak (pos old))).0,
      weak-injective e.updated old,
    )
  ]

  update_located_since :
      (hd : Handle) (m : Memory) (doc : Document) (current : Entry) (r : Record)
      → (update_located hd m doc (some current)).0 ≡ done r
      → held_since (update_located hd m doc (some current)).1.entries doc.id (suc current.updated)
        ≡ true
  unfolding update_located
  update_located_since hd m doc current r h =
      let later = save_since hd (tick m) doc current.created (bumped m current.updated) r h in
      let grown = bumped_grows m current.updated in
      earlier (save hd (tick m) doc current.created (bumped m current.updated)).1.entries doc.id
        (suc current.updated) (bumped m current.updated) (omega (arith, grown)) later

  stale :
      (hd : Handle) (m : Memory) (doc later : Document) (l : Option Entry) (version : Text)
      (r : Record)
      → version ≢ []
      → locate hd m doc.id version ≡ l
      → later.id ≡ doc.id
      → (update_located hd m doc l).0 ≡ done r
      → locate hd (update_located hd m doc l).1 later.id version ≡ none
  stale hd m doc later none version r named l same h =
      absurd (unfold update_located in ground arith)
  stale hd m doc later (some current) version r named l same h =
      let next = (update_located hd m doc (some current)).1 in
      let read = locate_version hd m doc.id version current named l in
      rw (same, sym read)
        (outdated hd next doc.id current.updated (update_located_since hd m doc current r h))

  -- Of two updates of one resource that name the same version, which is not empty, if the first
  -- succeeds, the second fails and changes nothing.
  pub no_lost_update :
      (hd : Handle) (m : Memory) (doc later : Document) (version : Text) (r : Record)
      → version ≢ []
      → later.id ≡ doc.id
      → (update hd m doc version).0 ≡ done r
      → update hd (update hd m doc version).1 later version
        ≡ (failed no_match, (update hd m doc version).1)
  unfolding update
  no_lost_update hd m doc later version r named same h =
      let next = update_located hd m doc (locate hd m doc.id version) in
      ap (update_located hd next.1 later)
        (stale hd m doc later (locate hd m doc.id version) version r named refl same h)
      ∙ (unfold update_located in refl)
