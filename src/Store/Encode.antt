-- ===== src/Store/Encode.antt =====
-- pkg/store/encode.go: the links and the body that are stored of a resource, from its JSON object.
use scim_go.Prelude.{
  Text, Bool, true, false, Option, none, some, List, [], ◌∷◌, ◌++◌, ◌==◌, list_eq, nat_eq, bytes,
  not, if◌then◌else◌,
}
use scim_go.Prelude.Dict.{lookup}
use scim_go.Runtime.{Runtime}
use scim_go.Decode.{Json}
use scim_go.Errors.{Result, ok, err, ◌>>=◌, err_invalid_value}
use scim_go.Core.Value.{Value, Items, Object, null, text, array, object, entries, fields, elements}
use scim_go.Core.Object.{get, set, remove}
use scim_go.Value.{object_or_nil, value_key}
use scim_go.Store.Link.{Link}
use scim_go.Store.Record.{Document}
use scim_go.Store.Reference as Reference
use scim_go.Store.Reference.{Reference}
pub mod Targets

-- m["value"].(string), which does not fold names
abbrev text_or_empty : Option Value → Text
text_or_empty (some (text s)) = s
text_or_empty _ = []

unfoldable pub element_id : Value → Text
element_id v = text_or_empty (lookup (bytes "value") (object_or_nil v))

module _ ⦃R : Runtime⦄ where
  -- the loop of hardTargets
  unfoldable pub element_targets : List Value → Result (List Text)
  unfolding element_id
  element_targets [] = ok []
  element_targets (v ∷ vs) =
      let rest = element_targets vs >>= λ ids. ok (element_id v ∷ ids) in
      if R.is_uuid (element_id v) then rest else err err_invalid_value

  -- hardTargets
  unfoldable pub hard_targets : Value → Result (List Text)
  unfolding element_targets
  hard_targets null = ok []
  hard_targets (array vs) = element_targets (elements vs)
  hard_targets _ = err err_invalid_value

  -- softTargets
  unfoldable pub key_targets : Text → Option Text → List Text
  key_targets id none = []
  key_targets id (some target) =
      if not (R.is_uuid target) then [] else if target == id then [] else target ∷ []

  unfoldable pub soft_targets : Text → Value → List Text
  unfolding key_targets
  soft_targets id raw = key_targets id (value_key (object_or_nil raw))

  unfoldable pub link_targets : Bool → Text → Value → Result (List Text)
  unfolding soft_targets hard_targets
  link_targets true id raw = ok (soft_targets id raw)
  link_targets false id raw = hard_targets raw

  -- newLink
  unfoldable pub new_link : Text → Reference → Value → Result Link
  unfolding link_targets
  new_link id r raw = link_targets (Reference.soft r) id raw >>= λ targets. ok (record {
    attribute = Reference.name r;
    types = Reference.types r;
    targets = targets;
    soft = Reference.soft r;
  })

  -- reference.holder(object, false), and what a change of it leaves of the object
  unfoldable pub holder : Reference → Object → Object
  holder r o = elim r.extension [ none ↦ o | some s ↦ object_or_nil (get o s.id) ]

  change_held : Reference → (Object → Object) → Object → Object
  change_held r f o = elim r.extension [
    | none ↦ f o
    | some s ↦ elim (get o s.id) [
      | object fs ↦ set o s.id (object (fields (f (entries fs))))
      | _ ↦ o
    ]
  ]

  -- keep
  keep_pointer : Reference → Value → Object → Object
  keep_pointer r (object fs) held =
      if Reference.soft r
      then set held (Reference.name r)
          (object (fields (remove (remove (entries fs) (bytes "$ref")) (bytes "displayName"))))
      else remove held (Reference.name r)
  keep_pointer r _ held = remove held (Reference.name r)

  keep_held : Reference → Object → Object
  unfolding keep_pointer
  keep_held r held = keep_pointer r (get held (Reference.name r)) held

  unfoldable pub keep : Reference → Object → Object
  unfolding keep_held change_held
  keep r o = change_held r (keep_held r) o

  -- extractLinks: the links, and the object that is left
  unfoldable pub reference_links : Text → Object → Reference → Result (List Link)
  unfolding new_link holder
  reference_links id o r =
      let made = new_link id r (get (holder r o) (Reference.name r)) >>= λ l. ok (l ∷ []) in
      if Reference.inverse r then ok [] else made

  unfoldable pub extract_links : Text → Object → List Reference → Result (List Link × Object)
  unfolding reference_links keep
  extract_links id o [] = ok ([], o)
  extract_links id o (r ∷ rs) = reference_links id o r >>= λ first.
      extract_links id (keep r o) rs >>= λ rest. ok (first ++ rest.0, rest.1)

module _ ⦃R : Runtime⦄ ⦃J : Json⦄ where
  -- the object without what the store keeps apart
  abbrev pub stored : Object → Object
  stored o = remove (remove (remove o (bytes "id")) (bytes "meta")) (bytes "password")

  abbrev pub document : Text → List Link × Object → Document
  document id found = record {
    id = id;
    body = J.marshal (object (fields found.1));
    links = found.0;
    references = [];
  }

  -- Encode, from the object that core.NewObject gives
  unfoldable pub encode : Text → Object → List Reference → Result Document
  unfolding extract_links
  encode id o references =
      extract_links id (stored o) references >>= λ found. ok (document id found)
