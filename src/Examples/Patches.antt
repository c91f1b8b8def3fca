-- ===== src/Examples/Patches.antt =====
-- Tests of PATCH requests, of sets of values and of coercion.
use scim_go.Prelude.{
  Text, false, none, some, List, [], ◌∷◌, ◌++◌, ◌==◌, list_eq, nat_eq, bytes, pos, ◌≡◌, refl, arith,
  inl, inr, ap, Bool-cases, Option-cases,
}
use scim_go.Runtime.{equal_fold}
use scim_go.Errors.{ok}
use scim_go.Core.Kinds.{returned_always, type_string, mutability_eq, type_eq}
use scim_go.Core.Value.{Value, Object, text}
use scim_go.Core.Attribute.{
  Attribute, as_read_only, as_case_exact, new_attribute, returned_as, lookup_fold,
}
use scim_go.Core.Schemas.{
  Schema, Schemas, is_extension, lookup_schema, resolve, resolve_root, resolve_in,
  common_attributes,
}
use scim_go.Core.Object.{get}
use scim_go.Value.Identity.{Formats}
use scim_go.Patch.Operation.{Operation}
use scim_go.Patch.Matcher.{Leftovers}
use scim_go.Patch.Target.{PatchState}
use scim_go.Patch.Patcher.{run_operations, apply}
use scim_go.Patch.Patcher.Locked.{IsLocked}
use scim_go.Patch.Patcher.Promises.{budget_of, start_of, apply-read_only}
use scim_go.Patch.Patcher.{
  apply_operation, apply_kind, write_operation, merge_root, merge_key, merge_attribute, key_path,
  repeats_read_only, resolve_at, write_at, find_target, compile_filter, extension_of,
}
use scim_go.Patch.Operation.{kind_of, kind_eq}
use scim_go.Decode.{decode_object}
use scim_go.Filter.Parse.{new_attr_path}
use scim_go.Patch.Gates.{gate, gate_immutable_write, check_parent, new_parent_gate}
use scim_go.Patch.Write.{
  write_target, write_holders, strip_read_only, write_held, put_all, put, put_in, put_value,
  overwritable, put_place,
}
use scim_go.Patch.Target.{sub_parent, target_key, owner, is_object, holders_to_write, unmatched}
use scim_go.Patch.Place.{
  made_container, with_container, write_place, read_place, container, unassign_empty_extension,
}
use scim_go.Patch.Replacing.{charge_output}
use scim_go.Patch.Budget.{charge_bytes, max_write_bytes, max_filter_evaluations, default_budget}
use scim_go.Patch.ListAdd.{
  fresh_incoming, is_add, deduped_add, carry_forward, demote_if_promoted, record_added,
}
use scim_go.Patch.Writing.{shaped, set_value, appended, promotes}
use scim_go.Core.Object.{set, has, key, best}
use scim_go.Prelude.Dict.{lookup, insert}
use scim_go.Value.{clone, primary}
use scim_go.Filter.Scan.{is_uri_char, span, is_name_char}
use scim_go.Examples.{ascii, plain, user_schema}
use scim_go.Examples.Filters.{escaping}

abbrev quoted : Value → Text
quoted (text s) = b'"' ∷ s ++ b'"' ∷ []
quoted _ = bytes "{}"

instance unfoldable pub formats : Formats
formats = record {
  quote = λ s. b'"' ∷ s ++ b'"' ∷ [];
  format_float = λ f. bytes "0";
  format_instant = λ t. bytes "0";
  marshal = quoted;
}

instance unfoldable pub leftovers : Leftovers
leftovers = record { float_left = λ s. 0; int_left = λ s. pos 0; time_left = pos 0 }

abbrev pub resource : Object
resource = (bytes "id", text (bytes "1")) ∷ (bytes "UserName", text (bytes "Bob")) ∷ []

abbrev pub schemas : Schemas
schemas = user_schema ∷ []

abbrev pub ops : List Operation
ops = record { op = bytes "add"; path = []; value = bytes "u" } ∷ []

abbrev pub patched : Object
patched = (bytes "id", text (bytes "1")) ∷ (bytes "UserName", text (bytes "Ann")) ∷ []

abbrev pub after : PatchState
after = record {
  root = patched;
  budget = record { max = 5; spent = 0; max_output_bytes = 100; output_spent = 5 };
  indexes = [];
}

pub ran : run_operations schemas ops (start_of 5 100 resource) ≡ ok after
unfolding run_operations apply_operation kind_of apply_kind write_operation decode_object merge_root
    merge_key lookup_schema lookup_fold merge_attribute key_path new_attr_path repeats_read_only
    resolve_at resolve resolve_root resolve_in common_attributes mutability_eq write_at find_target
    compile_filter gate extension_of write_target write_holders target_key owner strip_read_only
    is_object holders_to_write made_container unmatched charge_output charge_bytes formats
    write_held fresh_incoming is_add put_all put put_in put_value deduped_add shaped overwritable
    gate_immutable_write check_parent new_parent_gate set_value appended carry_forward put_place
    with_container write_place read_place container demote_if_promoted promotes record_added
    unassign_empty_extension get set has key best lookup insert list_eq nat_eq clone start_of
    budget_of max_write_bytes max_filter_evaluations default_budget kind_eq type_eq is_uri_char span
    is_name_char sub_parent primary
ran = refl

applied : apply schemas (budget_of 5 100) ops resource ≡ ok patched
unfolding apply start_of
applied = ground (arith, ran)

abbrev id_attribute : Attribute
id_attribute = as_read_only (as_case_exact (new_attribute 2 (bytes "id") type_string))

only_schema : (uri : Text) (s : Schema) → lookup_schema schemas uri ≡ some s → user_schema ≡ s
unfolding lookup_schema lookup_fold
only_schema uri s h = elim (Bool-cases (uri == [])) [
  | inl y ↦ ground arith
  | inr n ↦ elim (Bool-cases (equal_fold user_schema.id uri)) [
    | inl y ↦ ground arith
    | inr m ↦ absurd (ground arith)
  ]
]

no_extension : is_extension schemas user_schema ≡ false
unfolding nat_eq
no_extension = refl

unnamed_in : resolve_root schemas user_schema [] ≡ none
unfolding resolve_root resolve_in lookup_fold common_attributes list_eq nat_eq
unnamed_in = refl

IsLocked-id : IsLocked schemas (bytes "id")
IsLocked-id = record {
  own = returned_as returned_always id_attribute;
  found =
      unfold resolve lookup_schema resolve_root resolve_in lookup_fold common_attributes list_eq
        nat_eq in
      refl;
  locked = unfold mutability_eq returned_as as_read_only as_case_exact new_attribute in refl;
  one_base = λ uri s h n. ap some (only_schema uri s h);
  extension_ids = λ uri s h y. absurd (ground (arith, only_schema uri s h, no_extension));
  unnamed = λ uri. elim (Option-cases (lookup_schema schemas uri)) [
    | inl m ↦ unfold resolve in ground arith
    | inr (s, m) ↦ unfold resolve in ground (arith, only_schema uri s m, unnamed_in)
  ];
}

apply-read_only_example : get patched (bytes "id") ≡ get resource (bytes "id")
apply-read_only_example =
    apply-read_only schemas (bytes "id") 5 100 ops resource patched IsLocked-id applied
