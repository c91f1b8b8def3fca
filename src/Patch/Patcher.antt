-- ===== src/Patch/Patcher.antt =====
-- pkg/patch/patch.go and patcher.go: the operations of a request, one after the other.
pub mod Locked
pub mod Running
pub mod Promises
use scim_go.Prelude.{
  ℕ, Text, Bool, true, false, Option, none, some, List, [], ◌∷◌, ◌==◌, list_eq, nat_eq, bytes, not,
  ◌&&◌, ◌||◌, if◌then◌else◌, inl, inr,
}
use scim_go.Runtime.{Runtime, equal_fold}
use scim_go.Errors.{
  Result, ok, err, ◌>>=◌, ◌>>◌, err_invalid_path, err_invalid_value, err_invalid_syntax,
  err_no_target,
}
use scim_go.Core.Kinds.{read_only, mutability_eq}
use scim_go.Core.Value.{
  Value, Object, null, text, boolean, number, int64, float64, instant, array, object, entries,
}
use scim_go.Core.Attribute.{Attribute, traits}
use scim_go.Core.Object.{get, has}
use scim_go.Core.Schemas.{Schema, Schemas, is_extension, lookup_schema, resolve}
use scim_go.Decode.{Json, decode_object, decode_value}
use scim_go.Value.Compare.{equal}
use scim_go.Value.Identity.{Formats}
use scim_go.Filter.Path.{AttrPath}
use scim_go.Filter.Node.{Node}
use scim_go.Filter.Strings.{Strings}
use scim_go.Filter.Parse.{PatchPath, new_path, new_attr_path}
use scim_go.Patch.Operation.{
  Kind, op_add, op_remove, op_replace, Operation, permissive, kind_of, has_value,
}
use scim_go.Patch.Budget.{Budget}
use scim_go.Patch.Gates.{gate}
use scim_go.Patch.Matcher.{Leftovers, Compiled, compile}
use scim_go.Patch.Target.{PatchState, Target}
use scim_go.Patch.Replacing.{run_remover}
use scim_go.Patch.Write.{write_target}

-- filter.Path of a name alone
abbrev name_path : Text → Text → AttrPath
name_path uri name = record { uri = uri; name = name; sub_attribute = [] }

module _ ⦃R : Runtime⦄ where
  -- resolve
  unfoldable pub resolve_at : Schemas → AttrPath → Result Attribute
  resolve_at [] path = ok permissive
  resolve_at (s ∷ schemas) path =
      elim (resolve (s ∷ schemas) path.uri path.name path.sub_attribute) [
        | none ↦ err err_invalid_path
        | some a ↦ ok a
      ]

  -- patcher.extension
  unfoldable pub extension_of : Schemas → AttrPath → Text
  extension_of schemas path = if path.uri == [] then [] else elim (lookup_schema schemas path.uri) [
    | none ↦ []
    | some s ↦ if is_extension schemas s then s.id else []
  ]

  -- patcher.keyPath
  unfoldable pub key_path : Schemas → Text → AttrPath
  key_path [] key = name_path [] key
  key_path (s ∷ schemas) key = elim (new_attr_path key) [
    | inl e ↦ name_path [] key
    | inr path ↦ path
  ]

  -- patcher.repeatsReadOnly
  unfoldable pub repeats_read_only : Schemas → Object → AttrPath → Value → Bool
  repeats_read_only schemas root path incoming = elim (resolve_at schemas path) [
    | err e ↦ false
    | ok a ↦
        (traits a).mutability == read_only
        && has root path.name
        && equal a (get root path.name) incoming
  ]

  module _ ⦃L : Leftovers⦄ where
    -- the filter of a path, compiled where there is one
    unfoldable pub compile_filter : Attribute → Option Node → Result (Option Compiled)
    compile_filter a none = ok none
    compile_filter a (some n) = compile a n >>= λ c. ok (some c)

    -- patcher.target
    unfoldable pub find_target : Schemas → AttrPath → Option Node → Result Target
    find_target schemas path value_filter =
        resolve_at schemas (name_path path.uri path.name) >>= λ parent.
        gate parent
        >> (compile_filter parent value_filter >>= λ selector. resolve_at schemas path >>= λ own.
            gate own
            >> ok (record {
              extension = extension_of schemas path;
              parent = parent;
              own = own;
              path = path;
              selector = selector;
            }))

    module _ ⦃F : Formats⦄ where
      -- patcher.writeAt
      unfoldable pub write_at :
          Schemas → AttrPath → Option Node → Kind → Value → PatchState → Result PatchState
      write_at schemas path value_filter kind incoming st =
          find_target schemas path value_filter >>= λ t. write_target t kind incoming st

      -- the loop of patcher.mergeSchema
      unfoldable pub merge_extension :
          Schemas → Text → Kind → Object → PatchState → Result PatchState
      merge_extension schemas uri kind [] st = ok st
      merge_extension schemas uri kind ((name, item) ∷ values) st =
          elim (write_at schemas (name_path uri name) none kind item st) [
            | err e ↦ err e
            | ok st' ↦ merge_extension schemas uri kind values st'
          ]

      -- patcher.mergeSchema
      unfoldable pub merge_schema : Schemas → Schema → Value → Kind → PatchState → Result PatchState
      merge_schema schemas schema (object fs) kind st =
          merge_extension schemas schema.id kind (entries fs) st
      merge_schema schemas schema _ kind st = err err_invalid_value

      -- patcher.mergeKey, where the key is no schema
      unfoldable pub merge_attribute :
          Schemas → Text → Value → Kind → PatchState → Result PatchState
      merge_attribute schemas key incoming kind st =
          let path = key_path schemas key in
          if equal_fold key (bytes "schemas") || repeats_read_only schemas st.root path incoming
          then ok st
          else write_at schemas path none kind incoming st

      -- patcher.mergeKey
      unfoldable pub merge_key : Schemas → Text → Value → Kind → PatchState → Result PatchState
      merge_key schemas key incoming kind st = elim (lookup_schema schemas key) [
        | some schema ↦ merge_schema schemas schema incoming kind st
        | none ↦ merge_attribute schemas key incoming kind st
      ]

      -- patcher.mergeRoot
      unfoldable pub merge_root : Schemas → Object → Kind → PatchState → Result PatchState
      merge_root schemas [] kind st = ok st
      merge_root schemas ((key, incoming) ∷ values) kind st =
          elim (merge_key schemas key incoming kind st) [
            | err e ↦ err e
            | ok st' ↦ merge_root schemas values kind st'
          ]

  module _ ⦃L : Leftovers⦄ ⦃F : Formats⦄ ⦃S : Strings⦄ where
    -- parsePath
    unfoldable pub parse_path : Text → Result PatchPath
    parse_path raw = elim (new_path raw) [ inl e ↦ err err_invalid_path | inr path ↦ ok path ]

    -- patcher.remove
    unfoldable pub remove_operation : Schemas → Operation → PatchState → Result PatchState
    remove_operation schemas op st =
        if op.path == []
        then err err_no_target
        else if has_value op
        then err err_invalid_syntax
        else (parse_path op.path >>= λ path.
            find_target schemas path.attr_path path.value_filter >>= λ t. run_remover t st)

    module _ ⦃J : Json⦄ where
      -- patcher.write, with a path
      unfoldable pub write_path : Schemas → Kind → Operation → PatchState → Result PatchState
      write_path schemas kind op st = parse_path op.path >>= λ path.
          if op.value == [] then err err_invalid_value else elim (decode_value op.value) [
            | none ↦ err err_invalid_value
            | some v ↦ write_at schemas path.attr_path path.value_filter kind v st
          ]

      -- patcher.write
      unfoldable pub write_operation : Schemas → Kind → Operation → PatchState → Result PatchState
      write_operation schemas kind op st =
          if op.path == []
          then elim (decode_object op.value) [
            | none ↦ err err_invalid_value
            | some values ↦ merge_root schemas values kind st
          ]
          else write_path schemas kind op st

      -- the cases of patcher.apply
      unfoldable pub apply_kind : Schemas → Option Kind → Operation → PatchState → Result PatchState
      apply_kind schemas (some op_remove) op st = remove_operation schemas op st
      apply_kind schemas (some op_add) op st = write_operation schemas op_add op st
      apply_kind schemas (some op_replace) op st = write_operation schemas op_replace op st
      apply_kind schemas none op st = err err_invalid_syntax

      -- patcher.apply
      unfoldable pub apply_operation : Schemas → Operation → PatchState → Result PatchState
      apply_operation schemas op st = apply_kind schemas (kind_of op.op) op st

      -- patcher.run
      unfoldable pub run_operations : Schemas → List Operation → PatchState → Result PatchState
      run_operations schemas [] st = ok st
      run_operations schemas (op ∷ ops) st = elim (apply_operation schemas op st) [
        | err e ↦ err e
        | ok st' ↦ run_operations schemas ops st'
      ]

      -- Apply, with the budget that its options leave
      unfoldable pub apply : Schemas → Budget → List Operation → Object → Result Object
      apply schemas budget ops resource =
          run_operations schemas ops (record { root = resource; budget = budget; indexes = [] })
          >>= λ st. ok st.root
