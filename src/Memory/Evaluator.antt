-- ===== src/Memory/Evaluator.antt =====
-- internal/memory/evaluator.go: a filter as a predicate on the stored objects.
use scim_go.Prelude.{
  Text, Bool, true, false, Option, none, some, List, [], ◌∷◌, ◌==◌, list_eq, nat_eq, bytes, any,
  delete_func, not, ◌&&◌, ◌||◌, if◌then◌else◌,
}
use scim_go.Runtime.{Runtime}
use scim_go.Errors.{Result, ok, err, ◌>>=◌, err_invalid_filter}
use scim_go.Core.Value.{Value, Items, array, nil, cons, elements}
use scim_go.Core.Object.{get}
use scim_go.Core.Attribute.{Attribute, traits, same_attribute}
use scim_go.Core.Coerce.{fold}
use scim_go.Core.Schemas.{Schema, Schemas, base}
use scim_go.Value.{is_unassigned, object_or_nil, observed}
use scim_go.Value.Compare.{match_values}
use scim_go.Fields.{Fields, Field, lookup_field, field_value, field_elements, is_list, coerce_value}
use scim_go.Filter.Operator.{Operator}
use scim_go.Protocol.Attribute.{NamedAttribute}
use scim_go.Protocol.Visitor.{Evaluator}
pub mod Acceptance

-- predicate: a row is an object, or an element of a list of them
abbrev pub Predicate : Type 0
Predicate = Value → Bool

-- withoutPassword
is_password : List Attribute → Field → Bool
is_password attributes f =
    (traits f.attribute).name == bytes "password"
    && any (λ a. same_attribute a f.attribute) attributes

unfoldable pub without_password : Fields → Option Schema → Fields
unfolding is_password
without_password fs none = fs
without_password fs (some s) = delete_func (is_password s.attributes) fs

-- anyMatch
unfoldable pub any_match : Value → Predicate → Bool
any_match (array nil) p = p (array nil)
any_match (array (cons v vs)) p = any p (v ∷ elements vs)
any_match v p = p v

module _ ⦃R : Runtime⦄ where
  -- evaluator.reader
  field_reader : Option Field → Result (Value → Value)
  field_reader none = err err_invalid_filter
  field_reader (some f) = ok (λ row. field_value f (object_or_nil row))

  read_from : Fields → Attribute → Option Attribute → Result (Value → Value)
  unfolding field_reader
  read_from fs a (some p) = ok (λ row. coerce_value a (get (object_or_nil row) (traits a).name))
  read_from fs a none = field_reader (lookup_field fs a)

  unfoldable pub reader : Fields → NamedAttribute → Result (Value → Value)
  unfolding read_from
  reader fs a = read_from fs a.definition a.parent

  -- evaluator.ValuePath
  in_list : Option Field → Result Predicate → Result Predicate
  in_list none inner = err err_invalid_filter
  in_list (some list) inner =
      let found = inner >>= λ p. ok (λ row. any p (field_elements list (object_or_nil row))) in
      if is_list list then found else err err_invalid_filter

  -- evaluator
  unfoldable pub evaluator : Fields → Evaluator Predicate
  unfolding reader in_list any_match
  evaluator fs = record {
    compare = λ a op literal. reader fs a >>= λ read.
        let want = fold a.definition literal in
        ok (λ row. any_match (read row) (λ raw. match_values op (observed a.definition raw) want));
    present =
        λ a. reader fs a >>= λ read. ok (λ row. any_match (read row) (λ v. not (is_unassigned v)));
    both = λ l r. ok (λ row. l row && r row);
    either = λ l r. ok (λ row. l row || r row);
    negate = λ x. ok (λ row. not (x row));
    value_path = λ a inner. in_list (lookup_field fs a.definition) inner;
  }

  -- newEvaluator
  unfoldable pub new_evaluator : Fields → Schemas → Evaluator Predicate
  unfolding evaluator without_password
  new_evaluator fs schemas = evaluator (without_password fs (base schemas))
