-- ===== src/Protocol/Validation.antt =====
-- pkg/protocol/search_request.go: Validate and SortAttribute.
use scim_go.Prelude.{
  Option, none, some, [], ◌==◌, list_eq, nat_eq, bytes, not, if◌then◌else◌, inl, inr,
}
use scim_go.Runtime.{Runtime}
use scim_go.Errors.{Result, ok, err, ◌>>=◌, ◌>>◌, err_invalid_value}
use scim_go.Core.Kinds.{type_complex, type_eq}
use scim_go.Core.Attribute.{Attribute, traits, sub_attribute}
use scim_go.Core.Schemas.{Schemas, resolve}
use scim_go.Value.{hidden}
use scim_go.Filter.Path.{AttrPath}
use scim_go.Filter.Parse.{new_attr_path}
use scim_go.Filter.Strings.{Strings}
use scim_go.Protocol.{SearchRequest}
use scim_go.Protocol.Attribute.{NamedAttribute, named}
use scim_go.Protocol.Visitor.{accept, evaluate, visitor, is_complex_list}

module _ ⦃R : Runtime⦄ where
  -- the switch of SortAttribute
  unfoldable pub sorted_attribute : AttrPath → Attribute → Option Attribute
  unfolding is_complex_list
  sorted_attribute path parent =
      if not (path.sub_attribute == [])
      then sub_attribute parent path.sub_attribute
      else if is_complex_list parent
      then sub_attribute parent (bytes "value")
      else some parent

  -- the checks of SortAttribute
  unfoldable pub sortable :
      Schemas → AttrPath → Attribute → Option Attribute → Result NamedAttribute
  sortable schemas path parent none = err err_invalid_value
  sortable schemas path parent (some a) =
      if hidden (some parent) (some a)
      then err err_invalid_value
      else if (traits a).kind == type_complex
      then err err_invalid_value
      else ok (named schemas a path none)

  unfoldable pub sort_at : Schemas → AttrPath → Result NamedAttribute
  unfolding sorted_attribute sortable
  sort_at schemas path = elim (resolve schemas path.uri path.name []) [
    | none ↦ err err_invalid_value
    | some parent ↦ sortable schemas path parent (sorted_attribute path parent)
  ]

  -- SortAttribute
  unfoldable pub sort_attribute : Schemas → SearchRequest → Result NamedAttribute
  unfolding sort_at new_attr_path
  sort_attribute schemas request = elim (new_attr_path request.sort_by) [
    | inl failure ↦ err err_invalid_value
    | inr path ↦ sort_at schemas path
  ]

module _ ⦃R : Runtime⦄ ⦃S : Strings⦄ where
  -- Validate
  unfoldable pub check_filter : Schemas → SearchRequest → Result (Unit {0})
  unfolding evaluate visitor accept
  check_filter schemas request =
      if request.filter == []
      then ok tt
      else evaluate (visitor schemas accept (not request.in_body)) request.filter

  unfoldable pub check_sort : Schemas → SearchRequest → Result (Unit {0})
  unfolding sort_attribute
  check_sort schemas request =
      if request.sort_by == [] then ok tt else (sort_attribute schemas request >>= λ a. ok tt)

  unfoldable pub validate : Schemas → SearchRequest → Result (Unit {0})
  unfolding check_filter check_sort
  validate schemas request = check_filter schemas request >> check_sort schemas request
