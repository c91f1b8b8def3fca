-- ===== src/Protocol/Visitor/Concealed.antt =====
-- pkg/protocol/visitor.go: what conceal keeps from the evaluator.
use scim_go.Prelude.{
  Text, Bool, true, Option, none, some, [], ◌==◌, list_eq, nat_eq, bytes, not, ◌&&◌, ◌||◌,
  if◌then◌else◌, inl, inr, ◌≡◌, refl, ap, arith, Option-cases, ==_iff,
}
use scim_go.Runtime.{Runtime}
use scim_go.Errors.{Result, ok, err, ◌>>=◌, err_internal, err_invalid_filter}
use scim_go.Core.Value.{Value}
use scim_go.Core.Attribute.{Attribute, traits, sub_attribute}
use scim_go.Core.Coerce.{coerce}
use scim_go.Core.Schemas.{Schemas, resolve}
use scim_go.Value.{hidden}
use scim_go.Filter.Operator.{Operator, op_equals, op_present, op_and, op_or, op_unset, op_eq}
use scim_go.Filter.Path.{AttrPath, split_attr_path}
use scim_go.Filter.Node.{Node, compared, present, conjunction, disjunction, negated, value_path}
use scim_go.Filter.Visitor.{visit, dispatch_comparison}
use scim_go.Protocol.Visitor.Flat.{
  is_flat_scope, are_flat, is_flat, sub_is_flat, no_sub_value, sub_flat, resolve-flat,
}
use scim_go.Protocol.Attribute.{NamedAttribute, named, root}
use scim_go.Protocol.Visitor.{
  Evaluator, resolve_path, resolve_within, parent_of, compared_attribute, compare_found, compare_at,
  present_at, value_path_at, visitor,
}

module _ ⦃R : Runtime⦄ where
  -- The parent that may hide a named attribute: in a value filter the attribute that it filters, and
  -- elsewhere the one that the path begins with.
  holder : NamedAttribute → Option Attribute → Option Attribute
  unfolding root
  holder a none = some (root a)
  holder a (some scope) = some scope

  unfoldable pub is_secret : NamedAttribute → Bool
  unfolding holder
  is_secret a = hidden (holder a a.parent) (some a.definition)

  -- An evaluator that fails when a filter reads a secret: other than by "eq", or at all in a URI.
  unfoldable pub guarded : {Out : Type 0} → Bool → Evaluator Out → Evaluator Out
  unfolding is_secret
  guarded in_uri inner = record inner {
    compare = λ a op v.
        if is_secret a && (in_uri || not (op == op_equals))
        then err err_internal
        else inner.compare a op v;
    present = λ a. if is_secret a then err err_internal else inner.present a;
  }

  secret_top :
      (schemas : Schemas) (path : AttrPath) (a : Attribute)
      → resolve_path schemas none path ≡ ok a
      → let c = compared_attribute (parent_of schemas none path) a path in
        hidden c.0 (some c.1) ≡ is_secret (named schemas c.1 path none)
  unfolding is_secret resolve_path parent_of compared_attribute root hidden
  secret_top schemas path a h =
      elim (Option-cases (resolve schemas path.uri path.name path.sub_attribute)) [
        | inl m ↦ ground arith
        | inr (b, found) ↦ elim (Option-cases (resolve schemas path.uri path.name [])) [
          | inl m ↦ ground (arith, ==_iff path.sub_attribute [])
          | inr (c, top) ↦ elim (Option-cases (sub_attribute a (bytes "value"))) [
            | inl n ↦ ground (arith, ==_iff path.sub_attribute [])
            | inr (v, n) ↦ ground (arith, ==_iff path.sub_attribute [])
          ]
        ]
      ]

  found_within :
      (scope : Attribute) (path : AttrPath) (a : Attribute)
      → resolve_within scope path ≡ ok a
      → sub_attribute scope path.name ≡ some a
  unfolding resolve_within
  found_within scope path a h = elim (Option-cases (sub_attribute scope path.name)) [
    | inl n ↦ absurd (ground arith)
    | inr (b, found) ↦ ground arith
  ]

  resolve_path-flat :
      (schemas : Schemas) (scope : Option Attribute) (path : AttrPath) (a : Attribute)
      → are_flat schemas ≡ true
      → is_flat_scope scope ≡ true
      → resolve_path schemas scope path ≡ ok a
      → is_flat a ≡ true
  unfolding resolve_path
  resolve_path-flat schemas none path a h k e =
      elim (Option-cases (resolve schemas path.uri path.name path.sub_attribute)) [
        | inl n ↦ absurd (ground arith)
        | inr (b, n) ↦
            ground (arith, resolve-flat schemas path.uri path.name path.sub_attribute b h n)
      ]
  resolve_path-flat schemas (some scope) path a h k e =
      sub_is_flat scope path.name a k (found_within scope path a e)

  secret_within :
      (schemas : Schemas) (scope : Attribute) (path : AttrPath) (a : Attribute)
      → is_flat scope ≡ true
      → resolve_path schemas (some scope) path ≡ ok a
      → let c = compared_attribute (parent_of schemas (some scope) path) a path in
        hidden c.0 (some c.1) ≡ is_secret (named schemas c.1 path (some scope))
  unfolding is_secret resolve_path parent_of compared_attribute root hidden
  secret_within schemas scope path a k h =
      let leaf = sub_flat scope path.name a k (found_within scope path a h) in
      ground (arith, no_sub_value a (bytes "value") leaf)

  secret_compared :
      (schemas : Schemas) (scope : Option Attribute) (path : AttrPath) (a : Attribute)
      → is_flat_scope scope ≡ true
      → resolve_path schemas scope path ≡ ok a
      → let c = compared_attribute (parent_of schemas scope path) a path in
        hidden c.0 (some c.1) ≡ is_secret (named schemas c.1 path scope)
  secret_compared schemas none path a k h = secret_top schemas path a h
  secret_compared schemas (some scope) path a k h = secret_within schemas scope path a k h

  -- Where the presence of a secret is asked for, the visitor has a hidden attribute.
  secret_present :
      (schemas : Schemas) (scope : Option Attribute) (path : AttrPath) (a : Attribute)
      → resolve_path schemas scope path ≡ ok a
      → is_secret (named schemas a path scope) ≡ true
      → hidden (parent_of schemas scope path) (some a) ≡ true
  unfolding is_secret resolve_path parent_of root hidden
  secret_present schemas none path a h k =
      elim (Option-cases (resolve schemas path.uri path.name path.sub_attribute)) [
        | inl m ↦ ground arith
        | inr (b, found) ↦ elim (Option-cases (resolve schemas path.uri path.name [])) [
          | inl m ↦ ground (arith, ==_iff path.sub_attribute [])
          | inr (c, top) ↦ ground (arith, ==_iff path.sub_attribute [])
        ]
      ]
  secret_present schemas (some scope) path a h k = ground arith

bind_same :
    {A B : Type 0} (r : Result A) (f g : A → Result B)
    → ((a : A) → r ≡ ok a → f a ≡ g a)
    → (r >>= f) ≡ (r >>= g)
bind_same (err e) f g same = refl
bind_same (ok a) f g same = same a refl

module _ ⦃R : Runtime⦄ {Out : Type 0} (schemas : Schemas) (inner : Evaluator Out)
    (in_uri : Bool) where
  found_guarded :
      (scope parent : Option Attribute) (path : AttrPath) (op : Operator) (literal : Value)
      (a : Attribute)
      → hidden parent (some a) ≡ is_secret (named schemas a path scope)
      → compare_found schemas inner in_uri scope path op literal (parent, a)
        ≡ compare_found schemas (guarded in_uri inner) in_uri scope path op literal (parent, a)
  unfolding compare_found guarded
  found_guarded scope parent path op literal a h = elim (Option-cases (coerce a literal)) [
    | inl n ↦ ground arith
    | inr (v, n) ↦ ground arith
  ]

  compare_guarded :
      (scope : Option Attribute) (op : Operator) (path : AttrPath) (literal : Value)
      → is_flat_scope scope ≡ true
      → compare_at schemas inner in_uri scope op path literal
        ≡ compare_at schemas (guarded in_uri inner) in_uri scope op path literal
  unfolding compare_at
  compare_guarded scope op path literal k =
      bind_same (resolve_path schemas scope path) _ _ (λ a found.
        let c = compared_attribute (parent_of schemas scope path) a path in
        found_guarded scope c.0 path op literal c.1 (secret_compared schemas scope path a k found))

  present_guarded :
      (scope : Option Attribute) (path : AttrPath)
      → present_at schemas inner in_uri scope path
        ≡ present_at schemas (guarded in_uri inner) in_uri scope path
  unfolding present_at guarded op_eq
  present_guarded scope path =
      bind_same (resolve_path schemas scope path) _ _
        (λ a found. ground (arith, secret_present schemas scope path a found))

  dispatched_guarded :
      (scope : Option Attribute) (a : Text) (op : Operator) (v : Value)
      → is_flat_scope scope ≡ true
      → dispatch_comparison (visitor schemas inner in_uri) scope a op v
        ≡ dispatch_comparison (visitor schemas (guarded in_uri inner) in_uri) scope a op v
  unfolding dispatch_comparison visitor
  dispatched_guarded scope a op_present v k = refl
  dispatched_guarded scope a op_and v k = refl
  dispatched_guarded scope a op_or v k = refl
  dispatched_guarded scope a op_unset v k = refl
  dispatched_guarded scope a op v k = compare_guarded scope op (split_attr_path a) v k

  module _ (flat : are_flat schemas ≡ true) where
    -- No filter makes the evaluator read a secret, where no sub-attribute has sub-attributes, as RFC
    -- 7643 asks: an evaluator that fails when asked to compare a hidden attribute other than by "eq", or
    -- at all for a URI, or to test one for presence, gives what the evaluator itself gives. An attribute
    -- is hidden by itself, by the one that its path begins with, or by the one whose values are filtered.
    pub visit-guarded :
        (scope : Option Attribute) (n : Node)
        → is_flat_scope scope ≡ true
        → visit (visitor schemas inner in_uri) scope n
          ≡ visit (visitor schemas (guarded in_uri inner) in_uri) scope n
    unfolding visit visitor guarded value_path_at
    visit-guarded scope (compared a op v) k = dispatched_guarded scope a op v k
    visit-guarded scope (present a) k = present_guarded scope (split_attr_path a)
    visit-guarded scope (negated n) k = rw (visit-guarded scope n k) refl
    visit-guarded scope (conjunction l r) k =
        rw (visit-guarded scope l k, visit-guarded scope r k) refl
    visit-guarded scope (disjunction l r) k =
        rw (visit-guarded scope l k, visit-guarded scope r k) refl
    visit-guarded scope (value_path path f) k =
        bind_same (resolve_path schemas scope (split_attr_path path)) _ _ (λ a found.
          ap
            (λ o.
              if not (traits a).multi_valued
              then err err_invalid_filter
              else inner.value_path (named schemas a (split_attr_path path) none) o)
            (visit-guarded (some a) f
              (resolve_path-flat schemas scope (split_attr_path path) a flat k found)))
