-- ===== src/Patch/Patcher/Running.antt =====
-- pkg/patch/patcher.go: the operations of a request keep what its state promises, where no target
-- is about the name that is watched.
use scim_go.Prelude.{
  Text, Option, none, some, List, [], ◌∷◌, ◌==◌, list_eq, nat_eq, ◌≡◌, arith, Bool-cases,
  Option-cases, inl, inr,
}
use scim_go.Runtime.{Runtime}
use scim_go.Errors.{ok, Result-cases}
use scim_go.Core.Value.{Value, Object, object, entries}
use scim_go.Core.Schemas.{Schema, Schemas, lookup_schema}
use scim_go.Decode.{Json, decode_object, decode_value}
use scim_go.Value.Identity.{Formats}
use scim_go.Filter.Path.{AttrPath}
use scim_go.Filter.Node.{Node}
use scim_go.Filter.Strings.{Strings}
use scim_go.Patch.Operation.{Kind, op_add, op_remove, op_replace, Operation, kind_of}
use scim_go.Patch.Matcher.{Leftovers}
use scim_go.Patch.Target.{PatchState, Target}
use scim_go.Patch.Patcher.{
  key_path, name_path, find_target, write_at, merge_extension, merge_schema, merge_attribute,
  merge_key, merge_root, parse_path, remove_operation, write_path, write_operation, apply_kind,
  apply_operation, run_operations,
}
use scim_go.Patch.Kept.{Fixed, IsKept, Misses}
use scim_go.Patch.Kept.Removing.{run_remover-IsKept}
use scim_go.Patch.Kept.Writing.{write_target-IsKept}

-- Every target that is found misses the name that is watched.
abbrev pub AllMiss : ⦃R : Runtime⦄ → ⦃L : Leftovers⦄ → Schemas → Fixed → Type 0
AllMiss schemas x =
    (path : AttrPath) (f : Option Node) (t : Target)
    → find_target schemas path f ≡ ok t
    → Misses x t

module _ ⦃R : Runtime⦄ ⦃L : Leftovers⦄ ⦃F : Formats⦄ (schemas : Schemas) (x : Fixed)
    (miss : AllMiss schemas x) where
  write_at-IsKept :
      (path : AttrPath) (f : Option Node) (kind : Kind) (v : Value) (st st' : PatchState)
      → IsKept x st
      → write_at schemas path f kind v st ≡ ok st'
      → IsKept x st'
  unfolding write_at
  write_at-IsKept path f kind v st st' k e = elim (Result-cases (find_target schemas path f)) [
    | inl (g, m) ↦ absurd (ground arith)
    | inr (t, m) ↦ write_target-IsKept x t (miss path f t m) kind v st st' k (ground arith)
  ]

  merge_extension-IsKept :
      (uri : Text) (kind : Kind) (values : Object) (st st' : PatchState)
      → IsKept x st
      → merge_extension schemas uri kind values st ≡ ok st'
      → IsKept x st'
  unfolding merge_extension
  merge_extension-IsKept uri kind [] st st' k e = ground arith
  merge_extension-IsKept uri kind ((name, item) ∷ values) st st' k e =
      elim (Result-cases (write_at schemas (name_path uri name) none kind item st)) [
        | inl (g, m) ↦ absurd (ground arith)
        | inr (s, m) ↦
            merge_extension-IsKept uri kind values s st'
              (write_at-IsKept (name_path uri name) none kind item st s k m) (ground arith)
      ]

  merge_schema-IsKept :
      (schema : Schema) (v : Value) (kind : Kind) (st st' : PatchState)
      → IsKept x st
      → merge_schema schemas schema v kind st ≡ ok st'
      → IsKept x st'
  unfolding merge_schema
  merge_schema-IsKept schema (object fs) kind st st' k e =
      merge_extension-IsKept schema.id kind (entries fs) st st' k e
  merge_schema-IsKept schema _ kind st st' k e = absurd (ground arith)

  merge_key-IsKept :
      (key : Text) (v : Value) (kind : Kind) (st st' : PatchState)
      → IsKept x st
      → merge_key schemas key v kind st ≡ ok st'
      → IsKept x st'
  unfolding merge_key merge_schema merge_attribute
  merge_key-IsKept key v kind st st' k e = elim (Option-cases (lookup_schema schemas key)) [
    | inl m ↦
        let path = key_path schemas key in ground (arith, write_at-IsKept path none kind v st st' k)
    | inr (s, m) ↦ merge_schema-IsKept s v kind st st' k (ground arith)
  ]

  merge_root-IsKept :
      (values : Object) (kind : Kind) (st st' : PatchState)
      → IsKept x st
      → merge_root schemas values kind st ≡ ok st'
      → IsKept x st'
  unfolding merge_root
  merge_root-IsKept [] kind st st' k e = ground arith
  merge_root-IsKept ((key, v) ∷ values) kind st st' k e =
      elim (Result-cases (merge_key schemas key v kind st)) [
        | inl (g, m) ↦ absurd (ground arith)
        | inr (s, m) ↦
            merge_root-IsKept values kind s st' (merge_key-IsKept key v kind st s k m)
              (ground arith)
      ]

  module _ ⦃S : Strings⦄ where
    remove_operation-IsKept :
        (op : Operation) (st st' : PatchState)
        → IsKept x st
        → remove_operation schemas op st ≡ ok st'
        → IsKept x st'
    unfolding remove_operation
    remove_operation-IsKept op st st' k e = elim (Result-cases (parse_path op.path)) [
      | inl (g, m) ↦ absurd (ground arith)
      | inr (path, m) ↦ elim (Result-cases (find_target schemas path.attr_path path.value_filter)) [
        | inl (g, n) ↦ absurd (ground arith)
        | inr (t, n) ↦
            run_remover-IsKept x t (miss path.attr_path path.value_filter t n) st st' k
              (ground arith)
      ]
    ]

    module _ ⦃J : Json⦄ where
      write_path-IsKept :
          (kind : Kind) (op : Operation) (st st' : PatchState)
          → IsKept x st
          → write_path schemas kind op st ≡ ok st'
          → IsKept x st'
      unfolding write_path
      write_path-IsKept kind op st st' k e = elim (Result-cases (parse_path op.path)) [
        | inl (g, m) ↦ absurd (ground arith)
        | inr (path, m) ↦ elim (Option-cases (decode_value op.value)) [
          | inl n ↦ absurd (ground arith)
          | inr (v, n) ↦
              write_at-IsKept path.attr_path path.value_filter kind v st st' k (ground arith)
        ]
      ]

      write_operation-IsKept :
          (kind : Kind) (op : Operation) (st st' : PatchState)
          → IsKept x st
          → write_operation schemas kind op st ≡ ok st'
          → IsKept x st'
      unfolding write_operation
      write_operation-IsKept kind op st st' k e = elim (Bool-cases (op.path == [])) [
        | inr n ↦ write_path-IsKept kind op st st' k (ground arith)
        | inl y ↦ elim (Option-cases (decode_object op.value)) [
          | inl n ↦ absurd (ground arith)
          | inr (values, n) ↦ merge_root-IsKept values kind st st' k (ground arith)
        ]
      ]

      apply_kind-IsKept :
          (kind : Option Kind) (op : Operation) (st st' : PatchState)
          → IsKept x st
          → apply_kind schemas kind op st ≡ ok st'
          → IsKept x st'
      unfolding apply_kind
      apply_kind-IsKept none op st st' k e = absurd (ground arith)
      apply_kind-IsKept (some op_remove) op st st' k e = remove_operation-IsKept op st st' k e
      apply_kind-IsKept (some op_add) op st st' k e = write_operation-IsKept op_add op st st' k e
      apply_kind-IsKept (some op_replace) op st st' k e =
          write_operation-IsKept op_replace op st st' k e

      pub run_operations-IsKept :
          (ops : List Operation) (st st' : PatchState)
          → IsKept x st
          → run_operations schemas ops st ≡ ok st'
          → IsKept x st'
      unfolding run_operations apply_operation
      run_operations-IsKept [] st st' k e = ground arith
      run_operations-IsKept (op ∷ ops) st st' k e =
          elim (Result-cases (apply_operation schemas op st)) [
            | inl (g, m) ↦ absurd (ground arith)
            | inr (s, m) ↦
                run_operations-IsKept ops s st' (apply_kind-IsKept (kind_of op.op) op st s k m)
                  (ground arith)
          ]
