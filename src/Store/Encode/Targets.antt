-- ===== src/Store/Encode/Targets.antt =====
-- pkg/store/encode.go: what the links of a stored resource point at.
use scim_go.Prelude.{
  Text, Bool, true, false, Option, none, some, List, [], ◌∷◌, ◌++◌, ◌==◌, list_eq, nat_eq, not,
  ◌&&◌, all, if◌then◌else◌, ◌≡◌, refl, sym, ap, ◌∙◌, arith, inl, inr, Bool-cases, contains,
}
use scim_go.Runtime.{Runtime}
use scim_go.Errors.{Result, ok, err, ◌>>=◌}
use scim_go.Core.Value.{Value, Object, null, array, elements}
use scim_go.Core.Object.{get}
use scim_go.Value.{object_or_nil, value_key}
use scim_go.Store.Link.{Link}
use scim_go.Store.Reference as Reference
use scim_go.Store.Reference.{Reference}
use scim_go.Store.Encode.{
  element_id, element_targets, hard_targets, key_targets, soft_targets, link_targets, new_link,
  holder, keep, reference_links, extract_links,
}

pub bound_ok :
    {A B : Type 0} (r : Result A) (f : A → Result B) (b : B)
    → (r >>= f) ≡ ok b
    → (a : A) × (r ≡ ok a) × (f a ≡ ok b)
bound_ok (ok a) f b h = (a, refl, h)
bound_ok (err e) f b h = absurd (ground (arith, h))

all-append {ℓ} :
    {A : Type ℓ} (p : A → Bool) (xs ys : List A)
    → all p xs ≡ true
    → all p ys ≡ true
    → all p (xs ++ ys) ≡ true
all-append p [] ys h k = k
all-append p (x ∷ xs) ys h k = ground (arith, all-append p xs ys)

all_cons {ℓ} :
    {A : Type ℓ} (p : A → Bool) (x : A) (xs : List A)
    → all p (x ∷ xs) ≡ true
    → (p x ≡ true) × (all p xs ≡ true)
all_cons p x xs h = ground arith

all-true {ℓ} : {A : Type ℓ} (xs : List A) → all (λ x. true) xs ≡ true
all-true [] = refl
all-true (x ∷ xs) = all-true xs

pub links_of_ok :
    (links : List Link) (o : Object) (found : List Link × Object)
    → ok (links, o) ≡ ok found
    → links ≡ found.0
links_of_ok links o found h = ground (arith, h)

module _ ⦃R : Runtime⦄ where
  -- Every target is a UUID, and a soft link has one at most, which is not the resource itself.
  unfoldable pub is_sound : Text → Link → Bool
  is_sound id l = all (λ t. R.is_uuid t) l.targets && not (l.soft && contains id l.targets)

  element_targets_uuid :
      (vs : List Value) (ids : List Text)
      → element_targets vs ≡ ok ids
      → all (λ t. R.is_uuid t) ids ≡ true
  unfolding element_targets
  element_targets_uuid [] ids h = ground arith
  element_targets_uuid (v ∷ vs) ids h = elim (Bool-cases (R.is_uuid (element_id v))) [
    | inr n ↦ absurd (ground arith)
    | inl y ↦
        let (more, made, e) =
          bound_ok (element_targets vs) (λ more. ok (element_id v ∷ more)) ids (ground arith) in
        ground (arith, element_targets_uuid vs more made)
  ]

  key_targets_sound :
      (id : Text) (key : Option Text)
      → (all (λ t. R.is_uuid t) (key_targets id key) ≡ true)
        × (contains id (key_targets id key) ≡ false)
  unfolding key_targets
  key_targets_sound id none = (refl, refl)
  key_targets_sound id (some t) = ground arith

  hard_targets_uuid :
      (raw : Value) (ids : List Text)
      → hard_targets raw ≡ ok ids
      → all (λ t. R.is_uuid t) ids ≡ true
  unfolding hard_targets
  hard_targets_uuid null ids h = ground arith
  hard_targets_uuid (array vs) ids h = element_targets_uuid (elements vs) ids h
  hard_targets_uuid _ ids h = absurd (ground arith)

  link_targets_sound :
      (b : Bool) (id : Text) (raw : Value) (ids : List Text)
      → link_targets b id raw ≡ ok ids
      → (all (λ t. R.is_uuid t) ids ≡ true) × ((b && contains id ids) ≡ false)
  unfolding link_targets soft_targets
  link_targets_sound true id raw ids h =
      let sound = key_targets_sound id (value_key (object_or_nil raw)) in ground (arith, sound)
  link_targets_sound false id raw ids h = (hard_targets_uuid raw ids h, refl)

  pub new_link_sound :
      (id : Text) (r : Reference) (raw : Value) (l : Link)
      → new_link id r raw ≡ ok l
      → (is_sound id l ≡ true) × (l.attribute ≡ Reference.name r) × (l.soft ≡ Reference.soft r)
  unfolding new_link is_sound
  new_link_sound id r raw l h =
      let (ids, made, e) = bound_ok (link_targets (Reference.soft r) id raw) _ l h in
      ground (arith, link_targets_sound (Reference.soft r) id raw ids made)

  pub reference_links-all :
      (p : Link → Bool) (id : Text) (o : Object) (r : Reference) (links : List Link)
      → ((raw : Value) (l : Link) → new_link id r raw ≡ ok l → p l ≡ true)
      → reference_links id o r ≡ ok links
      → all p links ≡ true
  unfolding reference_links
  reference_links-all p id o r links each h = elim (Bool-cases (Reference.inverse r)) [
    | inl y ↦ ground arith
    | inr n ↦
        let raw = get (holder r o) (Reference.name r) in
        let (l, made, e) = bound_ok (new_link id r raw) (λ l. ok (l ∷ [])) links (ground arith) in
        ground (arith, each raw l made)
  ]

  extract_links-all :
      (p : Link → Bool) (q : Reference → Bool) (id : Text) (o : Object) (rs : List Reference)
      (found : List Link × Object)
      → ((r : Reference) (raw : Value) (l : Link)
          → q r ≡ true
          → new_link id r raw ≡ ok l
          → p l ≡ true)
      → all q rs ≡ true
      → extract_links id o rs ≡ ok found
      → all p found.0 ≡ true
  unfolding extract_links
  extract_links-all p q id o [] found each k h = ground arith
  extract_links-all p q id o (r ∷ rs) found each k h =
      let (first, made, e) = bound_ok (reference_links id o r) _ found h in
      let (rest, made', e') = bound_ok (extract_links id (keep r o) rs) _ found e in
      let (here, there) = all_cons q r rs k in
      ap (λ x. all p x) (sym (links_of_ok (first ++ rest.0) rest.1 found e'))
      ∙ all-append p first rest.0
          (reference_links-all p id o r first (λ raw l. each r raw l here) made)
          (extract_links-all p q id (keep r o) rs rest each there made')

  -- Every target of the links that extractLinks finds is a UUID, and no soft link points at the
  -- resource itself.
  pub extract_links-is_sound :
      (id : Text) (o : Object) (rs : List Reference) (found : List Link × Object)
      → extract_links id o rs ≡ ok found
      → all (is_sound id) found.0 ≡ true
  extract_links-is_sound id o rs found h =
      extract_links-all (is_sound id) (λ r. true) id o rs found
        (λ r raw l k made. (new_link_sound id r raw l made).0) (all-true rs) h

  -- Whether no reference of the name is soft.
  abbrev pub hard_only : Text → List Reference → Bool
  hard_only a rs = all (λ r. not (Reference.name r == a && Reference.soft r)) rs

  pub extract_links-hard :
      (a id : Text) (o : Object) (rs : List Reference) (found : List Link × Object)
      → hard_only a rs ≡ true
      → extract_links id o rs ≡ ok found
      → all (λ l. not (l.attribute == a && l.soft)) found.0 ≡ true
  extract_links-hard a id o rs found k h =
      extract_links-all (λ l. not (l.attribute == a && l.soft))
        (λ r. not (Reference.name r == a && Reference.soft r)) id o rs found
        (λ r raw l q made.
          let (sound, name, soft) = new_link_sound id r raw l made in rw (name, soft) q)
        k h

  -- Whether one reference at most has the name.
  abbrev pub has_no_name : Text → List Reference → Bool
  has_no_name a rs = all (λ r. not (Reference.name r == a)) rs

  abbrev pub single_name : Text → List Reference → Bool
  single_name a [] = true
  single_name a (r ∷ rs) = if Reference.name r == a then has_no_name a rs else single_name a rs

  pub has_no_name-single :
      (a : Text) (rs : List Reference) → has_no_name a rs ≡ true → single_name a rs ≡ true
  has_no_name-single a [] h = refl
  has_no_name-single a (r ∷ rs) h = ground (arith, has_no_name-single a rs)

  pub extract_links-none :
      (a id : Text) (o : Object) (rs : List Reference) (found : List Link × Object)
      → has_no_name a rs ≡ true
      → extract_links id o rs ≡ ok found
      → all (λ l. not (l.attribute == a)) found.0 ≡ true
  extract_links-none a id o rs found k h =
      extract_links-all (λ l. not (l.attribute == a)) (λ r. not (Reference.name r == a)) id o rs
        found
        (λ r raw l q made. let (sound, name, soft) = new_link_sound id r raw l made in rw name q) k
        h
