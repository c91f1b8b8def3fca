-- ===== src/Core/Object/Iteration.antt =====
-- pkg/core/object.go: `key` loops over a Go map, whose order of iteration is random.
use scim_go.Prelude.{
  Text, true, false, [], ◌∷◌, ◌==◌, ==_iff, list_eq, nat_eq, is_some, ◌≡◌, ◌≢◌, arith, text_lt,
  text_lt_irrefl, text_le_trans, text_lt_asymm, text_le_antisymm, Bool-cases, ap, if◌then◌else◌,
  inl, inr,
}
use scim_go.Prelude.Dict.{lookup}
use scim_go.Runtime.{Runtime, equal_fold}
use scim_go.Core.Value.{Value, Object}
use scim_go.Core.Object.{better, best, key}
use scim_go.Core.Object.Laws.{best_origin}

abbrev pub SameNames : Object → Object → Type 0
SameNames o p = (k : Text) → is_some (lookup k o) ≡ is_some (lookup k p)

module _ ⦃R : Runtime⦄ where
  fold_ne_nil : (c name : Text) → name ≢ [] → equal_fold c name ≡ true → c ≢ []
  fold_ne_nil c name h e n = h (R.fold-eq-nil name (ground (arith, R.fold-nil, n, ap R.fold n)))

  -- The match never grows.
  best-le :
      (name match : Text) (o : Object)
      → name ≢ []
      → match ≢ []
      → (best name match o ≢ []) × (text_lt match (best name match o) ≡ false)
  unfolding best better
  best-le name match [] m h = (h, text_lt_irrefl match)
  best-le name match ((c, v) ∷ o) m h = elim (Bool-cases (better name match c)) [
    | inl e ↦ rw e (
        let n : c ≢ [] = fold_ne_nil c name m (ground arith) in
        let r = best-le name c o m n in
        (r.0, text_le_trans _ c match r.1 (text_lt_asymm c match (ground arith))))
    | inr e ↦ rw e (best-le name match o m h)
  ]

  best-least_head :
      (name match c d : Text) (v : Value) (o : Object)
      → name ≢ []
      → d ≡ c
      → equal_fold c name ≡ true
      → (best name match ((d, v) ∷ o) ≢ []) × (text_lt c (best name match ((d, v) ∷ o)) ≡ false)
  unfolding best better
  best-least_head name match c d v o m same e =
      let n : c ≢ [] = fold_ne_nil c name m e in
      elim (Bool-cases (better name match d)) [
        | inl t ↦ rw (t, same) (best-le name c o m n)
        | inr t ↦ rw t (
            let r = best-le name match o m (ground arith) in
            (r.0, text_le_trans (best name match o) match c r.1 (ground arith)))
      ]

  -- Only the empty name folds like the empty name.
  nil_best : (o : Object) (name : Text) → name ≡ [] → best name [] o ≡ []
  nil_best o name e =
      ground (arith, best_origin name [] o, R.fold-nil, ap R.fold e, R.fold-eq-nil (best name [] o))

  -- Every held name that folds like the one asked is at or above the match.
  best-least :
      (name match c : Text) (o : Object)
      → name ≢ []
      → is_some (lookup c o) ≡ true
      → equal_fold c name ≡ true
      → (best name match o ≢ []) × (text_lt c (best name match o) ≡ false)
  unfolding best better lookup
  best-least name match c [] m h e = cc
  best-least name match c ((d, v) ∷ o) m h e = elim (Bool-cases (d == c)) [
    | inl same ↦ best-least_head name match c d v o m ((==_iff d c).0 same) e
    | inr differ ↦ best-least name (if better name match d then d else match) c o m (ground arith) e
  ]

  -- Two maps that hold the same names answer with the same one.
  pub key_order : (o p : Object) (name : Text) → SameNames o p → key o name ≡ key p name
  unfolding key
  key_order o p name same = elim (Bool-cases (name == [])) [
    | inl e ↦ ground (
      arith,
      same name,
      nil_best o name ((==_iff name []).0 e),
      nil_best p name ((==_iff name []).0 e),
    )
    | inr e ↦
        let m : name ≢ [] = ground arith in
        ground (
          arith,
          same name,
          same (best name [] o),
          same (best name [] p),
          best_origin name [] o,
          best_origin name [] p,
          best-least name [] (best name [] p) o m,
          best-least name [] (best name [] o) p m,
          text_le_antisymm (best name [] o) (best name [] p),
        )
  ]
