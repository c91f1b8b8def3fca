-- ===== src/Memory/Chains/Encoded.antt =====
-- pkg/store/encode.go: the links of one attribute that an encoded resource has.
use scim_go.Prelude.{
  Text, true, false, List, [], ◌∷◌, ◌++◌, ◌==◌, list_eq, nat_eq, ◌≡◌, arith, Bool-cases, inl, inr,
  ap, sym, ◌∙◌,
}
use scim_go.Runtime.{Runtime}
use scim_go.Errors.{ok}
use scim_go.Core.Value.{Object}
use scim_go.Core.Object.{get}
use scim_go.Store.Link.{Link}
use scim_go.Store.Reference as Reference
use scim_go.Store.Reference.{Reference}
use scim_go.Store.Encode.{new_link, holder, keep, reference_links, extract_links}
use scim_go.Store.Encode.Targets.{
  bound_ok, links_of_ok, new_link_sound, extract_links-none, has_no_name, single_name,
  has_no_name-single,
}
use scim_go.Memory.Chains.{has_none, single}

module _ ⦃R : Runtime⦄ (a id : Text) where
  -- the links that a reference adds to those of the references after it
  single-reference_links :
      (o : Object) (r : Reference) (first rest : List Link)
      → (Reference.name r == a) ≡ true
      → has_none a rest ≡ true
      → single a rest ≡ true
      → reference_links id o r ≡ ok first
      → single a (first ++ rest) ≡ true
  unfolding reference_links
  single-reference_links o r first rest y none_after s h = elim (Bool-cases (Reference.inverse r)) [
    | inl i ↦ ground arith
    | inr n ↦
        let raw = get (holder r o) (Reference.name r) in
        let (l, made, e) = bound_ok (new_link id r raw) (λ l. ok (l ∷ [])) first (ground arith) in
        ground (arith, new_link_sound id r raw l made)
  ]

  single-reference_links_other :
      (o : Object) (r : Reference) (first rest : List Link)
      → (Reference.name r == a) ≡ false
      → single a rest ≡ true
      → reference_links id o r ≡ ok first
      → single a (first ++ rest) ≡ true
  unfolding reference_links
  single-reference_links_other o r first rest n s h = elim (Bool-cases (Reference.inverse r)) [
    | inl i ↦ ground arith
    | inr j ↦
        let raw = get (holder r o) (Reference.name r) in
        let (l, made, e) = bound_ok (new_link id r raw) (λ l. ok (l ∷ [])) first (ground arith) in
        ground (arith, new_link_sound id r raw l made)
  ]

  -- Where one reference at most has a name, one link at most has it.
  pub extract_links-single :
      (o : Object) (rs : List Reference) (found : List Link × Object)
      → single_name a rs ≡ true
      → extract_links id o rs ≡ ok found
      → single a found.0 ≡ true
  unfolding extract_links
  extract_links-single o [] found k h = ground arith
  extract_links-single o (r ∷ rs) found k h =
      let (first, made, e) = bound_ok (reference_links id o r) _ found h in
      let (rest, made', e') = bound_ok (extract_links id (keep r o) rs) _ found e in
      ap (λ x. single a x) (sym (links_of_ok (first ++ rest.0) rest.1 found e'))
      ∙ elim (Bool-cases (Reference.name r == a)) [
        | inl y ↦
            let none_after : has_no_name a rs ≡ true = ground arith in
            single-reference_links o r first rest.0 y
              (extract_links-none a id (keep r o) rs rest none_after made')
              (extract_links-single (keep r o) rs rest (has_no_name-single a rs none_after) made')
              made
        | inr n ↦
            single-reference_links_other o r first rest.0 n
              (extract_links-single (keep r o) rs rest (ground arith) made') made
      ]
