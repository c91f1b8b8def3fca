-- ===== src/Patch/Writing/Primary.antt =====
-- pkg/patch/primary.go: after a demotion the elements that were written alone are primary.
use scim_go.Prelude.{
  ℕ, zero, suc, ◌+◌, Text, Bool, true, false, List, [], ◌∷◌, ◌||◌, ◌&&◌, not, bytes, ◌≡◌, refl,
  arith, Bool-cases, inl, inr, list_eq, nat_eq,
}
use scim_go.Prelude.Dict.{lookup}
use scim_go.Runtime.{Runtime}
use scim_go.Core.Value.{Value, null, boolean, object, entries, entries-fields}
use scim_go.Core.Object.{get, set}
use scim_go.Core.Object.Laws.{get-set_self}
use scim_go.Value.{primary}
use scim_go.Patch.Place.{nth}
use scim_go.Patch.Writing.{set_primary, demote_from, demote}

module _ ⦃R : Runtime⦄ where
  pub get-nil : (name : Text) → get [] name ≡ null
  unfolding get lookup
  get-nil name = refl

  primary-set_primary : (v : Value) → primary v ≡ true → primary (set_primary v false) ≡ false
  unfolding set_primary primary
  primary-set_primary (object fs) h =
      let o = entries fs in
      rw (entries-fields (set o (bytes "primary") (boolean false)))
        (rw (get-set_self o (bytes "primary") (boolean false)) refl)
  primary-set_primary _ h = ground (arith, get-nil (bytes "primary"))

  primary-null : primary null ≡ false
  unfolding primary
  primary-null = ground (arith, get-nil (bytes "primary"))

  primary-nth-demote_from :
      (j i n : ℕ) (written : ℕ → Bool) (vs : List Value)
      → n ≡ j + i
      → primary (nth (demote_from j written vs) i) ≡ (written n && primary (nth vs i))
  unfolding demote_from nth
  primary-nth-demote_from j i n written [] e = ground (arith, primary-null)
  primary-nth-demote_from j zero n written (v ∷ vs) e =
      let same : n ≡ j = omega (arith, e) in
      rw same (elim (Bool-cases (written j || not (primary v))) [
        | inl y ↦ rw y (ground arith)
        | inr k ↦ rw k (ground (arith, primary-set_primary v))
      ])
  primary-nth-demote_from j (suc i) n written (v ∷ vs) e =
      let rest = primary-nth-demote_from (j + 1) i n written vs (omega (arith, e)) in
      elim (Bool-cases (written j || not (primary v))) [ inl y ↦ rw y rest | inr k ↦ rw k rest ]

  -- After a demotion an element is primary exactly when it was before and is one of those that were
  -- written.
  pub primary-demote :
      (i : ℕ) (written : ℕ → Bool) (vs : List Value)
      → primary (nth (demote vs written) i) ≡ (written i && primary (nth vs i))
  unfolding demote
  primary-demote i written vs = primary-nth-demote_from 0 i i written vs (omega arith)
