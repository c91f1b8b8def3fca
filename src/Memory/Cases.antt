-- ===== src/Memory/Cases.antt =====
-- internal/memory/store.go: how to prove a property of the state after an operation.
use scim_go.Prelude.{ℕ, Text, Option, none, some, List, ◌≡◌, refl, list_eq, nat_eq}
use scim_go.Prelude.Dict.{lookup}
use scim_go.Runtime.{Runtime}
use scim_go.Decode.{Json, decode_object}
use scim_go.Errors
use scim_go.Core.Value.{Object}
use scim_go.Store.Record.{Document}
use scim_go.Memory.State.{Handle, Entry, IndexKey, Memory, tick, bumped}
use scim_go.Memory.Operations.{
  verify, commit, next_entry, save, save_decoded, save_verified, update, update_located, locate,
  delete, delete_located, delete_entry,
}

module _ ⦃R : Runtime⦄ ⦃J : Json⦄ (P : Memory → Type 0) (hd : Handle) (m : Memory)
    (doc : Document) where
  save_verified_cases :
      (next : Entry) (v : Errors.Result (List IndexKey))
      → verify hd m doc next ≡ v
      → P m
      → ((keys : List IndexKey)
          → verify hd m doc next ≡ Errors.ok keys
          → P (commit hd m doc (lookup doc.id m.entries) next keys))
      → P (save_verified hd m doc next v).1
  unfolding save_verified
  save_verified_cases next (Errors.err e) h p k = p
  save_verified_cases next (Errors.ok keys) h p k = k keys h

  save_decoded_cases :
      (created updated : ℕ) (d : Option Object)
      → decode_object doc.body ≡ d
      → P m
      → ((body : Object) (keys : List IndexKey)
          → verify hd m doc (next_entry hd m doc body created updated) ≡ Errors.ok keys
          → P (
              commit hd m doc
                (lookup doc.id m.entries)
                (next_entry hd m doc body created updated)
                keys))
      → P (save_decoded hd m doc created updated d).1
  unfolding save_decoded
  save_decoded_cases created updated none h p k = p
  save_decoded_cases created updated (some body) h p k =
      save_verified_cases (next_entry hd m doc body created updated) _ refl p (k body)

  -- A save changes nothing, or commits an entry that verify accepts.
  pub save_cases :
      (created updated : ℕ)
      → P m
      → ((body : Object) (keys : List IndexKey)
          → verify hd m doc (next_entry hd m doc body created updated) ≡ Errors.ok keys
          → P (
              commit hd m doc
                (lookup doc.id m.entries)
                (next_entry hd m doc body created updated)
                keys))
      → P (save hd m doc created updated).1
  unfolding save
  save_cases created updated p k =
      save_decoded_cases created updated (decode_object doc.body) refl p k

  update_located_cases :
      (l : Option Entry)
      → P m
      → ((current : Entry)
          → l ≡ some current
          → P (save hd (tick m) doc current.created (bumped m current.updated)).1)
      → P (update_located hd m doc l).1
  unfolding update_located
  update_located_cases none p k = p
  update_located_cases (some current) p k = k current refl

  -- An update changes nothing, or saves over the entry that locate finds.
  pub update_cases :
      (version : Text)
      → P m
      → ((current : Entry)
          → locate hd m doc.id version ≡ some current
          → P (save hd (tick m) doc current.created (bumped m current.updated)).1)
      → P (update hd m doc version).1
  unfolding update
  update_cases version p k = update_located_cases (locate hd m doc.id version) p k

module _ ⦃R : Runtime⦄ ⦃J : Json⦄ (P : Memory → Type 0) (hd : Handle) (m : Memory) (id : Text) where
  delete_located_cases :
      (l : Option Entry)
      → P m
      → ((current : Entry) → l ≡ some current → P (delete_entry hd m id current))
      → P (delete_located hd m id l).1
  unfolding delete_located
  delete_located_cases none p k = p
  delete_located_cases (some current) p k = k current refl

  -- A delete changes nothing, or removes the entry that locate finds.
  pub delete_cases :
      (version : Text)
      → P m
      → ((current : Entry)
          → locate hd m id version ≡ some current
          → P (delete_entry hd m id current))
      → P (delete hd m id version).1
  unfolding delete
  delete_cases version p k = delete_located_cases (locate hd m id version) p k
