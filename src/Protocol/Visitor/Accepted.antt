-- ===== src/Protocol/Visitor/Accepted.antt =====
-- pkg/protocol: a filter that `accept` lets pass, with another evaluator.
use scim_go.Prelude.{
  Text, Bool, false, Option, none, some, list_eq, nat_eq, not, ◌≡◌, refl, sym, ap, arith,
  Option-cases, Bool-cases, inl, inr, if◌then◌else◌,
}
use mathlib.Core.Path.{subst}
use scim_go.Runtime.{Runtime}
use scim_go.Errors.{Error, Result, ok, err, ◌>>=◌, ◌>>◌, err_invalid_filter}
use scim_go.Core.Value.{Value}
use scim_go.Core.Attribute.{Attribute, traits}
use scim_go.Core.Coerce.{coerce}
use scim_go.Core.Schemas.{Schemas}
use scim_go.Filter.Operator.{Operator, op_present, op_and, op_or, op_unset, op_eq}
use scim_go.Filter.Path.{AttrPath, split_attr_path}
use scim_go.Filter.Node.{Node, compared, present, conjunction, disjunction, negated, value_path}
use scim_go.Filter.Visitor.{visit, dispatch_comparison}
use scim_go.Protocol.Attribute.{NamedAttribute, named}
use scim_go.Protocol.Visitor.{
  Evaluator, accept, conceal, resolve_path, parent_of, compared_attribute, compare_found,
  compare_at, present_at, value_path_at, visitor,
}

-- The function succeeds, or fails with an error of the kind.
abbrev pub FailsWith : {A : Type 0} → (Error → Type 0) → Result A → Type 0
FailsWith P (err e) = P e
FailsWith P (ok a) = Unit {0}

-- What an evaluator fails with of its own.
pub record OnlyFails {Out : Type 0} (P : Error → Type 0) (inner : Evaluator Out) : Type 0 where
  pub compare :
      (a : NamedAttribute) (op : Operator) (v : Value) → FailsWith P (inner.compare a op v)
  pub present : (a : NamedAttribute) → FailsWith P (inner.present a)
  pub both : (x y : Out) → FailsWith P (inner.both x y)
  pub either : (x y : Out) → FailsWith P (inner.either x y)
  pub negate : (x : Out) → FailsWith P (inner.negate x)
  pub value_path :
      (a : NamedAttribute) (r : Result Out) → FailsWith P r → FailsWith P (inner.value_path a r)

accepted_bind :
    {A B : Type 0} (P : Error → Type 0) (r : Result A) (f : A → Result (Unit {0}))
    (g : A → Result B)
    → (r >>= f) ≡ ok tt
    → ((a : A) → r ≡ ok a → f a ≡ ok tt → FailsWith P (g a))
    → FailsWith P (r >>= g)
accepted_bind P (err e) f g h k = absurd (ground (arith, h))
accepted_bind P (ok a) f g h k = k a refl h

passed : (r : Result (Unit {0})) → (r >>= λ x. ok (tt {0})) ≡ ok tt → r ≡ ok tt
passed (err e) h = absurd (ground (arith, h))
passed (ok x) h = refl

both_passed :
    (r s : Result (Unit {0}))
    → (r >>= λ x. s >>= λ y. ok (tt {0})) ≡ ok tt
    → (r ≡ ok tt) × (s ≡ ok tt)
both_passed (err e) s h = absurd (ground (arith, h))
both_passed (ok x) s h = (refl, passed s h)

bind_fails :
    {A B : Type 0} (P : Error → Type 0) (r : Result A) (f : A → Result B)
    → FailsWith P r
    → ((a : A) → r ≡ ok a → FailsWith P (f a))
    → FailsWith P (r >>= f)
bind_fails P (err e) f h k = h
bind_fails P (ok a) f h k = k a refl

module _ ⦃R : Runtime⦄ {Out : Type 0} (schemas : Schemas) (inner : Evaluator Out)
    (in_uri : Bool) where
  found_accepted :
      (scope parent : Option Attribute) (path : AttrPath) (op : Operator) (literal : Value)
      (a : Attribute)
      → compare_found schemas accept in_uri scope path op literal (parent, a) ≡ ok tt
      → (v : Value) × (compare_found schemas inner false scope path op literal (parent, a)
          ≡ inner.compare (named schemas a path scope) op v)
  unfolding compare_found accept conceal
  found_accepted scope parent path op literal a h = elim (Option-cases (coerce a literal)) [
    | inl n ↦ absurd (ground arith)
    | inr (v, n) ↦ (v, ground arith)
  ]

  present_accepted :
      (parent : Option Attribute) (a : Attribute)
      → conceal in_uri parent a op_present ≡ ok tt
      → conceal false parent a op_present ≡ ok tt
  unfolding conceal op_eq
  present_accepted parent a h = ground arith

  module _ (P : Error → Type 0) (only : OnlyFails P inner) where
    compare_fails :
        (scope : Option Attribute) (op : Operator) (path : AttrPath) (literal : Value)
        → compare_at schemas accept in_uri scope op path literal ≡ ok tt
        → FailsWith P (compare_at schemas inner false scope op path literal)
    unfolding compare_at
    compare_fails scope op path literal h =
        accepted_bind P (resolve_path schemas scope path) _ _ h (λ a found e.
          let c = compared_attribute (parent_of schemas scope path) a path in
          let (v, same) = found_accepted scope c.0 path op literal c.1 e in
          subst (FailsWith P) (sym same) (only.compare (named schemas c.1 path scope) op v))

    present_fails :
        (scope : Option Attribute) (path : AttrPath)
        → present_at schemas accept in_uri scope path ≡ ok tt
        → FailsWith P (present_at schemas inner false scope path)
    unfolding present_at accept
    present_fails scope path h =
        accepted_bind P (resolve_path schemas scope path) _ _ h (λ a found e.
          let parent = parent_of schemas scope path in
          let free = present_accepted parent a (passed (conceal in_uri parent a op_present) e) in
          subst (FailsWith P) (ap (λ r. r >> inner.present (named schemas a path scope)) (sym free))
            (only.present (named schemas a path scope)))

    dispatched_fails :
        (scope : Option Attribute) (a : Text) (op : Operator) (v : Value)
        → dispatch_comparison (visitor schemas accept in_uri) scope a op v ≡ ok tt
        → FailsWith P (dispatch_comparison (visitor schemas inner false) scope a op v)
    unfolding dispatch_comparison visitor
    dispatched_fails scope a op_present v h = absurd (ground arith)
    dispatched_fails scope a op_and v h = absurd (ground arith)
    dispatched_fails scope a op_or v h = absurd (ground arith)
    dispatched_fails scope a op_unset v h = absurd (ground arith)
    dispatched_fails scope a op v h = compare_fails scope op (split_attr_path a) v h

    -- A filter that `accept` lets pass, in a URI or not, fails with another evaluator only when the
    -- evaluator itself fails.
    pub visit-FailsWith :
        (scope : Option Attribute) (n : Node)
        → visit (visitor schemas accept in_uri) scope n ≡ ok tt
        → FailsWith P (visit (visitor schemas inner false) scope n)
    unfolding visit visitor accept value_path_at
    visit-FailsWith scope (compared a op v) h = dispatched_fails scope a op v h
    visit-FailsWith scope (present a) h = present_fails scope (split_attr_path a) h
    visit-FailsWith scope (negated n) h =
        bind_fails P (visit (visitor schemas inner false) scope n) _
          (visit-FailsWith scope n (passed (visit (visitor schemas accept in_uri) scope n) h))
          (λ x made. only.negate x)
    visit-FailsWith scope (conjunction l r) h =
        let v = visitor schemas accept in_uri in
        let w = visitor schemas inner false in
        let (left, right) = both_passed (visit v scope l) (visit v scope r) h in
        bind_fails P (visit w scope l) _ (visit-FailsWith scope l left) (λ x made.
          bind_fails P (visit w scope r) _ (visit-FailsWith scope r right)
            (λ y made'. only.both x y))
    visit-FailsWith scope (disjunction l r) h =
        let v = visitor schemas accept in_uri in
        let w = visitor schemas inner false in
        let (left, right) = both_passed (visit v scope l) (visit v scope r) h in
        bind_fails P (visit w scope l) _ (visit-FailsWith scope l left) (λ x made.
          bind_fails P (visit w scope r) _ (visit-FailsWith scope r right)
            (λ y made'. only.either x y))
    visit-FailsWith scope (value_path path f) h =
        accepted_bind P (resolve_path schemas scope (split_attr_path path)) _ _ h (λ a found e.
          elim (Bool-cases (traits a).multi_valued) [
            | inr n ↦ absurd (ground arith)
            | inl y ↦
                subst (FailsWith P)
                  (ap
                    (λ b.
                      if not b
                      then err err_invalid_filter
                      else inner.value_path (named schemas a (split_attr_path path) none)
                          (visit (visitor schemas inner false) (some a) f))
                    (sym y))
                  (only.value_path (named schemas a (split_attr_path path) none)
                    (visit (visitor schemas inner false) (some a) f)
                    (visit-FailsWith (some a) f (ground arith)))
          ])
