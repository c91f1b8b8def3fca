-- ===== src/Examples/States.antt =====
-- Tests of encoded resources and of the states that the store reaches with them.
use scim_go.Prelude.{
  true, false, none, List, [], ◌∷◌, bytes, ◌≡◌, refl, all, arith, list_eq, nat_eq, ◌+◌,
}
use scim_go.Core.Value.{Object, text, array, object, nil, cons, end, field}
use scim_go.Core.Attribute.{Attribute, attribute, no_attributes, traits}
use scim_go.Core.Object.{get, key, remove}
use scim_go.Prelude.Dict.{lookup, erase}
use scim_go.Store.Link.{Link}
use scim_go.Store.Reference.{Reference}
use scim_go.Store.Encode.{encode, extract_links, document}
use scim_go.Store.Encode.Targets.{is_sound, extract_links-is_sound}
use scim_go.Memory.State.{Handle, Memory}
use scim_go.Memory.Operations.{create}
use scim_go.Memory.Mirror.{Mirror}
use scim_go.Memory.Chains.{Acyclic}
use scim_go.Memory.Reachable.{
  creates, Reachable, here, next, Reachable-Mirror, Reachable-Acyclic, hard_handle,
}
use scim_go.Filter.Grammar.{filter, value_filter, filter_atom, log_expression}
use scim_go.Filter.Grammar.Fuel.{filter_fuel}
use scim_go.Examples.{ascii, plain, users, groups, user_name, empty}
use scim_go.Examples.Filters.{escaping}

abbrev member_attribute : Attribute
member_attribute =
    attribute
      (record (traits user_name) { address = 91; name = bytes "members"; multi_valued = true })
      no_attributes

abbrev member_reference : Reference
member_reference = record {
  attribute = member_attribute;
  targets = bytes "User" ∷ [];
  extension = none;
}

abbrev group : Object
group =
    (bytes "members", array (cons (object (field (bytes "value") (text (bytes "ann")) end)) nil))
    ∷ []

abbrev found : List Link × Object
found = (
  record {
    attribute = bytes "members";
    types = bytes "User" ∷ [];
    targets = bytes "ann" ∷ [];
    soft = false;
  }
      ∷ [],
  [],
)

extract_links-is_sound_example : all (is_sound (bytes "g")) found.0 ≡ true
extract_links-is_sound_example =
    extract_links-is_sound (bytes "g") group (member_reference ∷ []) found
      (unfold extract_links get lookup key remove erase list_eq nat_eq in refl)

abbrev teams : Handle
teams = record groups { references = member_reference ∷ [] }

-- a user, then a group with the user as a member
abbrev first_state : Memory
first_state = (create users empty (document (bytes "ann") ([], []))).1

abbrev last_state : Memory
last_state = (create teams first_state (document (bytes "g") found)).1

reached : Reachable (hard_handle (bytes "members")) empty last_state
unfolding encode get lookup key remove erase list_eq nat_eq
reached =
    next
      (next here (creates users empty (bytes "ann") [] (document (bytes "ann") ([], [])) refl refl))
      (creates teams first_state (bytes "g") group (document (bytes "g") found) refl refl)

Reachable-Mirror_example : Mirror last_state
Reachable-Mirror_example =
    Reachable-Mirror (hard_handle (bytes "members")) (λ n. n + 7) last_state reached

Reachable-Acyclic_example : Acyclic last_state.entries (bytes "members")
Reachable-Acyclic_example = Reachable-Acyclic (bytes "members") (λ n. n + 7) last_state reached

filter_fuel_example :
    (filter 20 (bytes "a pr") ≡ filter 5 (bytes "a pr"))
    × (filter 20 (bytes "a pr")
        ≡ log_expression (filter_atom (filter 20) (value_filter 20)) 21 (filter 20) (bytes "a pr"))
filter_fuel_example = filter_fuel 20 (bytes "a pr") (omega arith)
