-- ===== src/Examples/Stores.antt =====
-- internal/memory: the theorems on the store, at the states of a small company.
use scim_go.Prelude.{
  is_some, Text, true, none, some, [], ◌==◌, list_eq, nat_eq, bytes, ◌&&◌, not, ◌≡◌, refl, arith,
  contains,
}
use scim_go.Prelude.Dict.{lookup, insert}
use scim_go.Decode.{decode_object}
use scim_go.Core.Kinds.{uniqueness_eq, type_eq}
use scim_go.Core.Attribute.{lookup_fold}
use scim_go.Core.Schemas.{common_attributes}
use scim_go.Fields.{new_fields, field_values}
use scim_go.Core.Object.{get, key}
use scim_go.Etag.{weak, format_int, digits, format_signed}
use scim_go.Store.Embed.{embed}
use scim_go.Memory.Acyclic.{hard}
use scim_go.Memory.Chains.{Acyclic, Singled, single}
use scim_go.Memory.Chains.Kept.{create-Acyclic, update-Acyclic}
use scim_go.Memory.Versions.{no_lost_update}
use scim_go.Core.Coerce.{coerce, fold}
use scim_go.Value.{is_unassigned}
use scim_go.Store.Link.{link_diff}
use scim_go.Store.Record.{Record}
use scim_go.Memory.State.{Handle, Memory, bumped}
use scim_go.Memory.Inbound.{has_edge, links_to, edges, relink}
use scim_go.Memory.Unique.{index_keys, key_eq, conflict, add_keys, remove_keys}
use scim_go.Memory.Entries.{
  find, check_links, check_link, check_targets, check_acyclic, reaches, reaches_loop, unseen, touch,
  touch_one, resolved,
}
use scim_go.Memory.Targets.{targets_of, changed_targets}
use scim_go.Memory.Operations.{
  record_of, relations, keys_of, next_entry, locate, create, update, delete, save, verify, commit,
  done, failed, no_match,
}
use scim_go.Memory.Mirror.{Mirror, create-Mirror, linked}
use scim_go.Memory.Removal.{linked-delete, delete-Mirror}
use scim_go.Memory.Uniqueness.{Indexed, Owns, create-Indexed, update-Indexed, keys_at}
use scim_go.Examples.{
  ascii, plain, users, groups, ann, ann_key, empty, user_document, group_document, one_user,
  company,
}

-- The hypotheses, at these states
empty-Mirror : Mirror empty
unfolding has_edge links_to lookup edges
empty-Mirror target e = refl

company-Mirror : Mirror company
company-Mirror =
    create-Mirror groups one_user group_document
      (create-Mirror users empty user_document empty-Mirror)

empty-Indexed : Indexed empty
unfolding lookup
empty-Indexed id k = refl

no_keys :
    (hd : Handle) (m : Memory) (id : Text)
    → keys_of hd none ≡ []
    → lookup id m.entries ≡ none
    → Owns hd m id
no_keys hd m id h n k = ground (arith, h, n)

no_zero_keys : keys_of users none ≡ []
unfolding keys_of index_keys new_fields lookup_fold common_attributes list_eq nat_eq uniqueness_eq
    field_values type_eq get lookup coerce is_unassigned
no_zero_keys = refl

empty-Owns : Owns users empty (bytes "1")
empty-Owns = no_keys users empty (bytes "1") no_zero_keys (unfold lookup in refl)

located : locate users company (bytes "1") [] ≡ some ann
unfolding locate find lookup create save decode_object verify commit next_entry check_links
    check_link check_targets check_acyclic reaches reaches_loop unseen add_keys remove_keys touch
    touch_one relink list_eq nat_eq key_eq insert index_keys new_fields lookup_fold
    common_attributes targets_of changed_targets link_diff conflict resolved keys_of bumped
    uniqueness_eq field_values type_eq get key coerce is_unassigned
located = refl

one_user-Indexed : Indexed one_user
one_user-Indexed = create-Indexed users empty user_document empty-Indexed empty-Owns

one_user-Owns : Owns users one_user (bytes "1")
unfolding locate find lookup create save decode_object verify commit next_entry check_links
    check_link check_targets check_acyclic reaches reaches_loop unseen add_keys remove_keys touch
    touch_one relink list_eq nat_eq key_eq insert index_keys new_fields lookup_fold
    common_attributes targets_of changed_targets link_diff conflict resolved keys_of bumped
    uniqueness_eq field_values type_eq get key coerce is_unassigned
one_user-Owns k = refl

ann_has_key :
    contains ann_key (keys_at (update users one_user user_document []).1.entries (bytes "1")) ≡ true
unfolding locate find lookup create save decode_object verify commit next_entry check_links
    check_link check_targets check_acyclic reaches reaches_loop unseen add_keys remove_keys touch
    touch_one relink list_eq nat_eq key_eq insert index_keys new_fields lookup_fold
    common_attributes targets_of changed_targets link_diff conflict resolved keys_of bumped
    uniqueness_eq field_values type_eq get key coerce is_unassigned fold update
ann_has_key = refl

abbrev updated_ann : Record
updated_ann = record {
  id = bytes "1";
  body = bytes "u";
  created = 7;
  updated = 10;
  version = bytes "W/\"10\"";
}

updated : (update users company user_document (bytes "W/\"9\"")).0 ≡ done updated_ann
unfolding locate find lookup create save decode_object verify commit next_entry check_links
    check_link check_targets check_acyclic reaches reaches_loop unseen add_keys remove_keys touch
    touch_one relink list_eq nat_eq key_eq insert index_keys new_fields lookup_fold
    common_attributes targets_of changed_targets link_diff conflict resolved keys_of bumped
    uniqueness_eq field_values type_eq get key coerce is_unassigned update weak record_of embed
    format_int digits format_signed fold relations
updated = refl

-- Memory
linked-delete_example :
    (is_some (lookup (bytes "2") (delete users company (bytes "1") []).1.entries)
      ≡ (is_some (lookup (bytes "2") company.entries) && not (bytes "2" == bytes "1")))
    × (linked
          (delete users company (bytes "1") []).1.entries
          (bytes "2")
          (bytes "members")
          (bytes "1")
        ≡ (linked company.entries (bytes "2") (bytes "members") (bytes "1")
            && not (bytes "2" == bytes "1")
            && not (bytes "1" == bytes "1")))
linked-delete_example =
    linked-delete users company (bytes "1") [] ann (bytes "2") (bytes "members") (bytes "1")
      company-Mirror located

delete-Mirror_example : Mirror (delete users company (bytes "1") []).1
delete-Mirror_example = delete-Mirror users company (bytes "1") [] company-Mirror

create-Mirror_example : Mirror (create groups one_user group_document).1
create-Mirror_example =
    create-Mirror groups one_user group_document
      (create-Mirror users empty user_document empty-Mirror)

create-Indexed_example : Indexed (create users empty user_document).1
create-Indexed_example = create-Indexed users empty user_document empty-Indexed empty-Owns

update-Indexed_example : Indexed (update users one_user user_document []).1
update-Indexed_example =
    update-Indexed users one_user user_document [] one_user-Indexed one_user-Owns

no_lost_update_example :
    update users
      (update users company user_document (bytes "W/\"9\"")).1
      user_document
      (bytes "W/\"9\"")
    ≡ (failed no_match, (update users company user_document (bytes "W/\"9\"")).1)
no_lost_update_example =
    no_lost_update users company user_document user_document (bytes "W/\"9\"") updated_ann
      (λ e. cc (e)) refl updated

-- Cycles
empty-Acyclic : Acyclic empty.entries (bytes "members") × Singled empty.entries (bytes "members")
unfolding lookup links_to
empty-Acyclic = (λ id t hops. refl, λ id. refl)

one_user-Acyclic :
    Acyclic one_user.entries (bytes "members") × Singled one_user.entries (bytes "members")
one_user-Acyclic =
    create-Acyclic (bytes "members") users empty user_document empty-Acyclic.0 empty-Acyclic.1 refl
      refl

group_is_hard : hard (bytes "members") group_document.links ≡ true
unfolding list_eq nat_eq
group_is_hard = refl

group_is_single : single (bytes "members") group_document.links ≡ true
unfolding list_eq nat_eq
group_is_single = refl

company-Acyclic :
    Acyclic company.entries (bytes "members") × Singled company.entries (bytes "members")
company-Acyclic =
    create-Acyclic (bytes "members") groups one_user group_document one_user-Acyclic.0
      one_user-Acyclic.1 group_is_hard group_is_single

update-Acyclic_example :
    Acyclic (update groups company group_document []).1.entries (bytes "members")
    × Singled (update groups company group_document []).1.entries (bytes "members")
update-Acyclic_example =
    update-Acyclic (bytes "members") groups company group_document [] company-Acyclic.0
      company-Acyclic.1 group_is_hard group_is_single
