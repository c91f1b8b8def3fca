-- ===== src/Examples/Values.antt =====
-- pkg/core, pkg/store and internal: the theorems on values, names and links, at small inputs.
use scim_go.Prelude.{
  Text, some, List, [], ◌∷◌, ◌==◌, list_eq, nat_eq, bytes, if◌then◌else◌, ◌&&◌, not, Ordering, ◌||◌,
  ◌≡◌, refl, arith, contains, is_some,
}
use scim_go.Prelude.Dict.{lookup}
use scim_go.Core.Kinds.{uniqueness_eq, type_eq}
use scim_go.Core.Value.{Object, null, text}
use scim_go.Core.Attribute.{lookup_fold}
use scim_go.Core.Schemas.{
  Schemas, common_attributes, lookup_schema, resolve_root, resolve_in, resolve,
}
use scim_go.Core.Schemas.Resolution.{resolve_fold, resolve_name}
use scim_go.Core.Object.Iteration.{key_order}
use scim_go.Value.Compare.{compare_values, match_values}
use scim_go.Value.Matching.{match_comparable}
use scim_go.Filter.Operator.{
  op_equals, op_not_equals, op_greater_than, op_greater_than_equals, op_less_than,
  op_less_than_equals, op_eq,
}
use scim_go.Store.Link.Diff.{link_diff_lem, Distinct}
use scim_go.Core.Object.{key}
use scim_go.Store.Link.{link_diff}
use scim_go.Memory.State.{Edge}
use scim_go.Memory.Unique.{key_eq}
use scim_go.Examples.{ascii, plain, user_name, user_schema, group_schema}

abbrev object : Object
object = (bytes "Name", text (bytes "a")) ∷ (bytes "age", null) ∷ []

abbrev reversed : Object
reversed = (bytes "age", null) ∷ (bytes "Name", text (bytes "a")) ∷ []

same_names : (k : Text) → is_some (lookup k object) ≡ is_some (lookup k reversed)
unfolding lookup
same_names k = ground arith

key_order_example : key object (bytes "NAME") ≡ key reversed (bytes "NAME")
key_order_example = key_order object reversed (bytes "NAME") same_names

abbrev schemas : Schemas
schemas = user_schema ∷ group_schema ∷ []

resolve_fold_example :
    resolve schemas (bytes "USER") (bytes "username") []
    ≡ resolve schemas (bytes "user") (bytes "userName") []
resolve_fold_example =
    resolve_fold schemas (bytes "USER") (bytes "user") (bytes "username") (bytes "userName") [] []
      refl refl refl

found : resolve schemas [] (bytes "USERNAME") [] ≡ some user_name
unfolding resolve lookup_schema resolve_root resolve_in lookup_fold common_attributes list_eq nat_eq
found = refl

abbrev no_sub : Text
no_sub = []

resolve_name_example :
    ascii.fold (bytes "userName") ≡ ascii.fold (if no_sub == [] then bytes "USERNAME" else no_sub)
resolve_name_example = resolve_name schemas [] (bytes "USERNAME") no_sub user_name found

match_comparable_example :
    (match_values op_not_equals (text (bytes "a")) (text (bytes "b"))
      ≡ not (match_values op_equals (text (bytes "a")) (text (bytes "b"))))
    × (match_values op_less_than_equals (text (bytes "a")) (text (bytes "b"))
        ≡ not (match_values op_greater_than (text (bytes "a")) (text (bytes "b"))))
    × (match_values op_greater_than_equals (text (bytes "a")) (text (bytes "b"))
        ≡ not (match_values op_less_than (text (bytes "a")) (text (bytes "b"))))
    × (match_values op_greater_than_equals (text (bytes "a")) (text (bytes "b")) ≡ (
        match_values op_greater_than (text (bytes "a")) (text (bytes "b"))
        || match_values op_equals (text (bytes "a")) (text (bytes "b"))))
match_comparable_example =
    match_comparable (text (bytes "a")) (text (bytes "b")) Ordering.lt (λ e. cc (e))
      (unfold compare_values in refl)

abbrev now_held : List Text
now_held = bytes "a" ∷ bytes "b" ∷ []

abbrev to_hold : List Text
to_hold = bytes "c" ∷ bytes "b" ∷ bytes "c" ∷ []

link_diff_lem_example :
    (contains (bytes "c") (link_diff now_held to_hold).0
      ≡ (contains (bytes "c") to_hold && not (contains (bytes "c") now_held)))
    × (contains (bytes "c") (link_diff now_held to_hold).1
        ≡ (contains (bytes "c") now_held && not (contains (bytes "c") to_hold)))
    × Distinct (link_diff now_held to_hold).0
    × Distinct (link_diff now_held to_hold).1
link_diff_lem_example = link_diff_lem now_held to_hold (bytes "c")

abbrev members_edge : Edge
members_edge = record { source = bytes "g"; attribute = bytes "members" }
