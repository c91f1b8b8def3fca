-- ===== src/Examples/Elements.antt =====
-- Tests of the elements of multi-valued attributes: sets, value filters, replacing and removing, the
-- one primary element, and of coercion.
use scim_go.Prelude.{
  none, ◌+◌, ◌≤◌, ◌<◌, ℕ, ◌*◌, Text, Bool, true, false, some, List, [], ◌∷◌, ◌++◌, ◌==◌, list_eq,
  nat_eq, bytes, ◌≡◌, refl, ◌&&◌, ◌⊎◌, if◌then◌else◌, any, map, length,
}
use scim_go.Errors.{ok}
use scim_go.Core.Kinds.{mutability_eq, type_eq, type_string, type_date_time, returned_eq}
use scim_go.Core.Value.{Value, null, text, boolean, array, object, nil, cons, end, field}
use scim_go.Core.Attribute.{Attribute, traits, new_attribute, as_multi_valued, with_subs}
use scim_go.Prelude.Dict.{lookup}
use scim_go.Core.Object.{get, key}
use scim_go.Core.Coerce.{coerce, coerce_as, fold}
use scim_go.Core.Coerce.Typed.{has_type, coerce-is_typed}
use scim_go.Value.{primary, hidden, observed, defaulted, is_primary, is_unassigned}
use scim_go.Value.Compare.{allowed, match_values, compare_values, holds}
use scim_go.Value.Sets.{contains_element, new_set}
use scim_go.Value.Sets.Refinement.{same_element, contains-new_set}
use scim_go.Filter.Operator.{op_equals, op_eq}
use scim_go.Filter.Path.{split_attr_path}
use scim_go.Filter.Visitor.{visit}
use scim_go.Filter.Node.{Node, compared}
use scim_go.Patch.Matcher.{filter_literal, coerced_anyway, field_of}
use scim_go.Patch.Budget.{Budget, charge}
use scim_go.Patch.Matcher.{
  Compiled, compile, leaf_test, leaf, matcher, is_simple, resolve_filtered, check_leaf,
}
use scim_go.Patch.Matcher.Secrets.{is_discreet, clauses_of, compile-is_discreet}
use scim_go.Patch.Place.{nth, list_of, container}
use scim_go.Patch.Target.{PatchState, Target, tally, selects, is_object, target_elements}
use scim_go.Patch.Replacing.{is_null, substitute, run_remover}
use scim_go.Value.Compare.{equal}
use scim_go.Patch.Replacing.Selected.{
  unselected, first_hit, replaced_at, substitute_lem, run_remover-unmatched,
}
use scim_go.Patch.Writing.{demote}
use scim_go.Patch.Writing.Primary.{primary-demote}
use scim_go.Patch.Index.{Index, new_index, add_stored, fresh}
use scim_go.Patch.ListAdd.{index_of, put_index}
use scim_go.Patch.ListAdd.Cache.{fresh-index_of}
use scim_go.Value.Sets.{keyed_by_identity, unique}
use scim_go.Value.Sets.Distinct.{deduped, are_distinct, are_distinct-unique}
use scim_go.Patch.Target.{target_key, holders_to_write, unmatched, sub_parent}
use scim_go.Patch.Place.{
  made_container, with_container, write_place, read_place, unassign_empty_extension,
}
use scim_go.Patch.Replacing.{charge_output}
use scim_go.Patch.Budget.{charge_bytes, exceeds}
use scim_go.Value.{clone}
use scim_go.Patch.ListAdd.{
  fresh_incoming, is_add, deduped_add, carry_forward, demote_if_promoted, record_added, is_kept,
  put_elements,
}
use scim_go.Patch.Operation.{kind_eq}
use scim_go.Patch.Write.{overwritable, put_place}
use scim_go.Patch.Gates.{gate_immutable_write, check_parent, new_parent_gate}
use scim_go.Patch.Writing.{shaped, shaped_list, set_value, appended, promotes, is_true_value}
use scim_go.Core.Object.{set, best}
use scim_go.Prelude.Dict.{insert}
use scim_go.Examples.{ascii, plain}
use scim_go.Examples.Patches.{formats, leftovers, schemas, ops, resource, after, ran}
use scim_go.Examples.Filters.{escaping}
use scim_go.Patch.Patcher.Promises.{run_operations-le}
use scim_go.Patch.Kept.Checks.{filter_checks}
use scim_go.Patch.Operation.{op_replace}
use scim_go.Patch.Write.{
  write_target, write_holders, write_held, put_all, put, put_in, put_value, strip_read_only,
}
use scim_go.Patch.Target.{owner}

abbrev member : Text → Value
member name = object (field (bytes "value") (text name) end)

abbrev main_member : Text → Value
main_member name =
    object (field (bytes "value") (text name) (field (bytes "primary") (boolean true) end))

abbrev nicknames : Attribute
nicknames = as_multi_valued (new_attribute 30 (bytes "nicknames") type_string)

abbrev emails : Attribute
emails =
    with_subs (new_attribute 32 (bytes "value") type_string ∷ [])
      (as_multi_valued (new_attribute 31 (bytes "emails") type_string))

contains-new_set_example :
    contains_element
      (new_set emails (member (bytes "a") ∷ member (bytes "b") ∷ []))
      (member (bytes "B"))
    ≡ any (same_element emails (member (bytes "B"))) (member (bytes "a") ∷ member (bytes "b") ∷ [])
contains-new_set_example =
    contains-new_set emails (member (bytes "a") ∷ member (bytes "b") ∷ []) (member (bytes "B"))

abbrev texts : List Value
texts = text (bytes "a") ∷ text (bytes "b") ∷ text (bytes "c") ∷ []

abbrev hits : List Bool
hits = true ∷ false ∷ true ∷ []

substitute_lem_example :
    (substitute nicknames texts hits null ≡ unselected texts hits)
    × (is_null (text (bytes "d")) ≡ false
        → substitute nicknames texts hits (text (bytes "d")) ≡ (
            if any (λ v. equal nicknames v (text (bytes "d"))) (unselected texts hits)
            then unselected texts hits
            else replaced_at (first_hit hits) (text (bytes "d")) texts hits))
substitute_lem_example = substitute_lem nicknames texts hits (text (bytes "d")) refl refl

abbrev members : List Value
members = main_member (bytes "a") ∷ main_member (bytes "b") ∷ []

abbrev is_second : ℕ → Bool
is_second i = i == 1

primary-demote_example :
    primary (nth (demote members is_second) 0) ≡ (is_second 0 && primary (nth members 0))
primary-demote_example = primary-demote 0 is_second members

coerced : coerce nicknames (text (bytes "x")) ≡ some (text (bytes "x"))
unfolding coerce coerce_as new_attribute as_multi_valued
coerced = refl

coerce-is_typed_example :
    ((text (bytes "x") ≡ null) ⊎ (has_type (traits nicknames).kind (text (bytes "x")) ≡ true))
    × (((traits nicknames).kind == type_date_time) ≡ false
        → coerce nicknames (text (bytes "x")) ≡ some (text (bytes "x")))
coerce-is_typed_example = coerce-is_typed nicknames (text (bytes "x")) (text (bytes "x")) coerced

abbrev is_b : Node
is_b = compared (bytes "value") op_equals (text (bytes "b"))

abbrev b_test : Compiled
b_test = record {
  test = leaf_test (some nicknames) (split_attr_path (bytes "value")) op_equals (text (bytes "b"));
  clauses = 1;
}

compiled : compile nicknames is_b ≡ ok b_test
unfolding compile leaf nat_eq as_multi_valued new_attribute visit matcher resolve_filtered is_simple
    type_eq list_eq check_leaf allowed hidden mutability_eq returned_eq coerce coerce_as
compiled = refl

compile-is_discreet_example :
    (is_discreet nicknames is_b ≡ true) × (b_test.clauses ≡ clauses_of is_b)
compile-is_discreet_example = compile-is_discreet nicknames is_b b_test compiled

abbrev state : PatchState
state = record {
  root = (bytes "nicknames", array (cons (text (bytes "a")) nil)) ∷ [];
  budget = record { max = 5; spent = 2; max_output_bytes = 0; output_spent = 0 };
  indexes = [];
}

abbrev paid : Budget
paid = record { max = 5; spent = 3; max_output_bytes = 0; output_spent = 0 }

abbrev filtered : Target
filtered = record {
  extension = [];
  parent = nicknames;
  own = nicknames;
  path = record { uri = []; name = bytes "nicknames"; sub_attribute = [] };
  selector = some b_test;
}

none_hit : tally (map (selects filtered b_test) (target_elements filtered state.root)) ≡ 0
unfolding tally selects target_elements container list_of leaf_test get lookup list_eq key nat_eq
    is_object type_eq as_multi_valued new_attribute filter_literal coerce coerce_as allowed
    match_values fold op_eq compare_values observed coerced_anyway field_of defaulted is_primary
    is_unassigned holds split_attr_path
none_hit = refl

charged :
    charge state.budget (length (target_elements filtered state.root) * b_test.clauses) ≡ ok paid
unfolding charge target_elements container list_of get lookup list_eq key nat_eq
charged = refl

run_remover-unmatched_example :
    run_remover filtered state ≡ ok (record state { budget = paid; indexes = [] })
run_remover-unmatched_example =
    run_remover-unmatched filtered b_test state paid refl none_hit charged

abbrev added : List Value
added = text (bytes "d") ∷ []

abbrev grown : Index
grown = add_stored (new_index nicknames texts) added

fresh-index_of_example :
    (index_of filtered (put_index filtered [] grown) (texts ++ added)
      ≡ (put_index filtered [] grown, grown))
    × (fresh grown (text (bytes "d") ∷ [])
        ≡ fresh (new_index nicknames (texts ++ added)) (text (bytes "d") ∷ []))
fresh-index_of_example = fresh-index_of filtered [] texts added (text (bytes "d") ∷ [])

abbrev repeated : List Value
repeated = text (bytes "a") ∷ text (bytes "A") ∷ text (bytes "b") ∷ []

are_distinct-unique_example :
    (unique nicknames repeated ≡ deduped nicknames [] repeated)
    × (are_distinct nicknames (unique nicknames repeated) ≡ true)
are_distinct-unique_example =
    are_distinct-unique nicknames (unfold keyed_by_identity new_attribute as_multi_valued in refl)
      repeated

abbrev plain_target : Target
plain_target = record filtered { selector = none }

abbrev written : PatchState
written = record {
  root = (bytes "nicknames", array (cons (text (bytes "b")) nil)) ∷ [];
  budget = record { max = 5; spent = 2; max_output_bytes = 0; output_spent = 3 };
  indexes = [];
}

wrote : write_target plain_target op_replace (text (bytes "b")) state ≡ ok written
unfolding write_target write_holders write_held put_all put put_in put_value target_key
    holders_to_write made_container unmatched charge_output charge_bytes formats is_object clone
    fresh_incoming is_add kind_eq strip_read_only owner overwritable gate_immutable_write
    check_parent new_parent_gate mutability_eq as_multi_valued new_attribute shaped shaped_list
    unique deduped_add carry_forward set_value appended put_place with_container write_place
    read_place container demote_if_promoted promotes primary record_added unassign_empty_extension
    target_elements list_of get set key best lookup insert list_eq nat_eq type_eq sub_parent is_kept
    exceeds is_true_value put_elements demote
wrote = refl

removed : run_remover filtered state ≡ ok (record state { budget = paid; indexes = [] })
removed = run_remover-unmatched filtered b_test state paid refl none_hit charged

run_operations-le_example :
    (0 < 5 → after.budget.spent ≤ 5)
    × (0 < 100 → after.budget.output_spent ≤ 100)
    × (written.budget.spent ≡ state.budget.spent + filter_checks plain_target state)
    × (paid.spent ≡ state.budget.spent + filter_checks filtered state)
    × (written.budget.output_spent
        ≡ state.budget.output_spent
          + length (formats.marshal (strip_read_only (owner plain_target) (text (bytes "b")))))
run_operations-le_example =
    run_operations-le schemas 5 100 ops resource after plain_target filtered plain_target op_replace
      (text (bytes "b")) state written state (record state { budget = paid; indexes = [] }) state
      written ran wrote removed refl wrote
