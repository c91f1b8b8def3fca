-- ===== src/Protocol/Visitor.antt =====
-- pkg/protocol: visitor.go, evaluator.go and filter.go. A filter is checked against the schemas and
-- handed to an evaluator.
use scim_go.Prelude.{
  Text, Bool, true, false, Option, none, some, List, [], ◌∷◌, ◌==◌, list_eq, nat_eq, bytes, not,
  ◌&&◌, if◌then◌else◌, ◌⊎◌, inl, inr,
}
use scim_go.Runtime.{Runtime}
use scim_go.Errors.{
  Result, ok, err, ◌>>=◌, ◌>>◌, err_invalid_filter, err_invalid_value, err_sensitive,
}
use scim_go.Core.Kinds.{type_complex, type_eq}
use scim_go.Core.Value.{Value}
use scim_go.Core.Attribute.{Attribute, traits, sub_attribute}
use scim_go.Core.Coerce.{coerce}
use scim_go.Core.Schemas.{Schemas, resolve}
use scim_go.Value.{hidden}
use scim_go.Value.Compare.{allowed}
use scim_go.Filter.Operator.{Operator, op_equals, op_present, op_eq}
use scim_go.Filter.Path.{AttrPath}
use scim_go.Filter.Visitor.{Visitor, visit}
use scim_go.Filter.Node.{Node}
use scim_go.Filter.Strings.{Strings}
use scim_go.Filter.Parse.{ParseFailure, parse}
use scim_go.Protocol.Attribute.{NamedAttribute, named}
pub mod Flat
pub mod Concealed
pub mod Accepted

-- Evaluator. A value filter is a function without arguments in Go.
pub record Evaluator (Out : Type 0) : Type 0 where
  pub compare : NamedAttribute → Operator → Value → Result Out
  pub present : NamedAttribute → Result Out
  pub both : Out → Out → Result Out
  pub either : Out → Out → Result Out
  pub negate : Out → Result Out
  pub value_path : NamedAttribute → Result Out → Result Out

-- accept
unfoldable pub accept : Evaluator (Unit {0})
accept = record {
  compare = λ a op v. ok tt;
  present = λ a. ok tt;
  both = λ x y. ok tt;
  either = λ x y. ok tt;
  negate = λ x. ok tt;
  value_path = λ a f. f;
}

-- visitor.conceal
unfoldable pub conceal : Bool → Option Attribute → Attribute → Operator → Result (Unit {0})
conceal in_uri parent a op =
    if not (hidden parent (some a))
    then ok tt
    else if in_uri && not (op == op_present)
    then err err_sensitive
    else if not (op == op_equals)
    then err err_invalid_filter
    else ok tt

module _ ⦃R : Runtime⦄ where
  -- visitor.resolveWithin
  unfoldable pub resolve_within : Attribute → AttrPath → Result Attribute
  resolve_within scope path = elim (sub_attribute scope path.name) [
    | none ↦ err err_invalid_filter
    | some a ↦ if path.sub_attribute == [] then ok a else err err_invalid_filter
  ]

  -- visitor.resolve. The scope is nil outside of a value path.
  unfoldable pub resolve_path : Schemas → Option Attribute → AttrPath → Result Attribute
  unfolding resolve_within
  resolve_path schemas (some scope) path = resolve_within scope path
  resolve_path schemas none path = elim (resolve schemas path.uri path.name path.sub_attribute) [
    | none ↦ err err_invalid_filter
    | some a ↦ ok a
  ]

  -- visitor.parent
  unfoldable pub parent_of : Schemas → Option Attribute → AttrPath → Option Attribute
  parent_of schemas (some scope) path = some scope
  parent_of schemas none path =
      if path.sub_attribute == [] then none else resolve schemas path.uri path.name []

  unfoldable pub is_complex_list : Attribute → Bool
  is_complex_list a = (traits a).kind == type_complex && (traits a).multi_valued

  -- The parent and the attribute that a comparison reads: for a list of complex values, "value".
  unfoldable pub compared_attribute :
      Option Attribute → Attribute → AttrPath → Option Attribute × Attribute
  unfolding is_complex_list
  compared_attribute parent a path =
      if path.sub_attribute == [] && is_complex_list a
      then elim (sub_attribute a (bytes "value")) [ none ↦ (parent, a) | some sub ↦ (some a, sub) ]
      else (parent, a)

  module _ {Out : Type 0} (schemas : Schemas) (inner : Evaluator Out) (in_uri : Bool) where
    -- visitor.compare, once the attribute is found
    unfoldable pub compare_found :
        Option Attribute → AttrPath → Operator → Value → Option Attribute × Attribute → Result Out
    unfolding conceal
    compare_found scope path op literal (parent, a) =
        conceal in_uri parent a op
        >> (if not (allowed (traits a).kind op)
            then err err_invalid_filter
            else elim (coerce a literal) [
              | none ↦ err err_invalid_value
              | some v ↦ inner.compare (named schemas a path scope) op v
            ])

    -- visitor.compare, VisitPresence and VisitValuePath
    unfoldable pub compare_at : Option Attribute → Operator → AttrPath → Value → Result Out
    unfolding resolve_path parent_of compared_attribute compare_found
    compare_at scope op path literal = resolve_path schemas scope path >>= λ a.
        compare_found scope path op literal
          (compared_attribute (parent_of schemas scope path) a path)

    unfoldable pub present_at : Option Attribute → AttrPath → Result Out
    unfolding resolve_path parent_of conceal
    present_at scope path = resolve_path schemas scope path >>= λ a.
        conceal in_uri (parent_of schemas scope path) a op_present
        >> inner.present (named schemas a path scope)

    unfoldable pub value_path_at :
        Option Attribute → AttrPath → (Option Attribute → Result Out) → Result Out
    unfolding resolve_path
    value_path_at scope path value_filter = resolve_path schemas scope path >>= λ a.
        if not (traits a).multi_valued
        then err err_invalid_filter
        else inner.value_path (named schemas a path none) (value_filter (some a))

    -- visitor: its scope is a field, set while the value filter runs.
    unfoldable pub visitor : Visitor (Option Attribute) Out
    unfolding compare_at present_at value_path_at
    visitor = record {
      visit_and = inner.both;
      visit_or = inner.either;
      visit_not = inner.negate;
      visit_comparison = compare_at;
      visit_presence = present_at;
      visit_value_path = value_path_at;
    }

module _ ⦃R : Runtime⦄ ⦃S : Strings⦄ {Out : Type 0} where
  -- evaluate
  unfoldable pub visit_parsed : Visitor (Option Attribute) Out → ParseFailure ⊎ Node → Result Out
  unfolding visit
  visit_parsed v (inl failure) = err err_invalid_filter
  visit_parsed v (inr n) = visit v none n

  unfoldable pub evaluate : Visitor (Option Attribute) Out → Text → Result Out
  unfolding visit_parsed parse
  evaluate v text = visit_parsed v (parse text)

  -- Filter
  unfoldable pub filter : Schemas → Text → Evaluator Out → Result Out
  unfolding evaluate visitor
  filter schemas text inner = evaluate (visitor schemas inner false) text
