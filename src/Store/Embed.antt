-- ===== src/Store/Embed.antt =====
-- pkg/store/relation.go: Embed writes the relations of a resource into the bytes of its JSON body.
use scim_go.Prelude.{
  ℕ, Text, Bool, true, false, none, some, List, [], ◌∷◌, ◌++◌, ◌==◌, list_eq, nat_eq, bytes,
  if◌then◌else◌, ◌&&◌, ◌||◌, text_lt,
}
use scim_go.Prelude.Sort.{sort}
use mathlib.Core.List.{reverse, tail}
use scim_go.Decode.{Json}
use scim_go.Store.Reference
use scim_go.Store.Record.{Relation, kind_of}

-- Relation.extensionID and Relation.attribute
pub extension_id : Relation → Text
extension_id r = elim r.reference.extension [ none ↦ [] | some s ↦ s.id ]

pub attribute_name : Relation → Text
attribute_name r = Reference.name r.reference

-- compareRelations, as the test that a comes before b
unfoldable pub relation_lt : Relation → Relation → Bool
unfolding extension_id attribute_name
relation_lt a b =
    text_lt (extension_id a) (extension_id b)
    || ((extension_id a == extension_id b) && text_lt (attribute_name a) (attribute_name b))

-- `runs`: a run is its first relation and the others.
abbrev pub Run : Type 0
Run = Relation × List Relation

unfoldable pub runs : (Relation → Text) → List Relation → List Run
runs key [] = []
runs key (r ∷ rs) = elim (runs key rs) [
  | [] ↦ (r, []) ∷ []
  | (head, rest) ∷ more ↦
      if key head == key r then (r, head ∷ rest) ∷ more else (r, []) ∷ (head, rest) ∷ more
]

-- The text of the items with commas between them.
abbrev separated : List Text → Text
separated [] = []
separated (x ∷ []) = x
separated (x ∷ xs) = x ++ bytes "," ++ separated xs

abbrev each {ℓ} : {A : Type ℓ} → (A → Text) → List A → List Text
each f [] = []
each f (x ∷ xs) = f x ∷ each f xs

module _ ⦃J : Json⦄ where
  append_key : Text → Text
  append_key name = J.quote name ++ bytes ":"

  append_member : Relation → Text
  unfolding append_key
  append_member r =
      bytes "{"
      ++ append_key (bytes "value")
      ++ J.quote r.id
      ++ bytes ","
      ++ append_key (bytes "type")
      ++ J.quote (kind_of r)
      ++ bytes "}"

  append_attribute : Run → Text
  unfolding append_member
  append_attribute (r, rs) =
      append_key (attribute_name r)
      ++ bytes "["
      ++ separated (each append_member (r ∷ rs))
      ++ bytes "]"

  append_extension : Run → Text
  unfolding append_attribute runs
  append_extension (r, rs) =
      let inner = separated (each append_attribute (runs attribute_name (r ∷ rs))) in
      if extension_id r == []
      then inner
      else append_key (extension_id r) ++ bytes "{" ++ inner ++ bytes "}"

  -- appendRelations, after its opening brace
  append_relations : List Relation → Text
  unfolding append_extension relation_lt sort runs
  append_relations relations =
      separated (each append_extension (runs extension_id (sort relation_lt relations)))
      ++ bytes "}"

  is_space : ℕ → Bool
  is_space c = c == b' ' || c == 9 || c == 13 || c == 10

  trim_left : Text → Text
  trim_left [] = []
  trim_left (c ∷ s) = if is_space c then trim_left s else c ∷ s

  -- bytes.TrimRight(body, " \t\r\n")
  trim_right : Text → Text
  unfolding trim_left
  trim_right s = reverse (trim_left (reverse s))

  -- Whether more than one byte is left.
  holds_fields : Text → Bool
  holds_fields (a ∷ b ∷ _) = true
  holds_fields _ = false

  -- Embed
  unfoldable pub embed : Text → List Relation → Text
  unfolding append_relations trim_right holds_fields is_space
  embed body [] = body
  embed body (r ∷ rs) =
      let head = reverse (tail (reverse (trim_right body))) in
      head
      ++ (if holds_fields (trim_left (trim_right head)) then bytes "," else [])
      ++ append_relations (r ∷ rs)
