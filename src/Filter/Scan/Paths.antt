-- ===== src/Filter/Scan/Paths.antt =====
-- pkg/filter/grammar.go: the shape of an attribute path, and that it is read again in front of
-- another text.
use scim_go.Prelude.{
  Text, Bool, true, false, none, some, [], ◌∷◌, ◌++◌, ◌==◌, list_eq, nat_eq, ◌&&◌, not, all, ◌≡◌,
  refl, arith, ◌⊎◌, inl, inr, Option-cases, ℕ, sym, ap, ◌∙◌, ==_iff,
}
use mathlib.Core.List.{append_assoc, append-nil}
use scim_go.Filter.Scan.{
  is_name_char, attribute_name, uri_scan, uri_prefix, sub_attribute_name, with_sub, named_path,
  attribute_path,
}
use scim_go.Filter.Scan.Names.{
  ends, is_name, is_path_char, attribute_name-some, attribute_name-append, uri_scan-append,
  uri_scan-none,
}

-- nothing, or a dot and a name
abbrev pub is_sub : Text → Bool
is_sub [] = true
is_sub (c ∷ s) = c == b'.' && is_name s

-- A text that has the shape of an attribute path: a prefix that reSchemaURI reads whole, or none, a
-- name and a sub-attribute.
unfoldable pub IsAttribute : Text → Type 0
unfolding uri_prefix
IsAttribute a =
    (p n u : Text) × ((p ≡ []) ⊎ (uri_prefix p ≡ some (p, [])))
    × (is_name n ≡ true)
    × (is_sub u ≡ true)
    × (a ≡ (p ++ n) ++ u)

uri_prefix-append :
    (s p r t : Text)
    → uri_prefix s ≡ some (p, r)
    → uri_scan false t ≡ none
    → uri_prefix (p ++ t) ≡ some (p, t)
unfolding uri_prefix
uri_prefix-append [] p r t h e = cc
uri_prefix-append (c ∷ s) p r t h e = elim (Option-cases (uri_scan true s)) [
  | inl n ↦ ground arith
  | inr ((p', r'), found) ↦ ground (arith, uri_scan-append true s p' r' t found e)
]

prefix_again : (s p r : Text) → uri_prefix s ≡ some (p, r) → uri_prefix p ≡ some (p, [])
unfolding uri_scan
prefix_again s p r h = ap uri_prefix (sym (append-nil p)) ∙ uri_prefix-append s p r [] h refl

not_colon : ℕ → Bool
not_colon c = not (c == b':')

name_no_colon : (n : Text) → all is_name_char n ≡ true → all not_colon n ≡ true
unfolding is_name_char not_colon
name_no_colon [] h = refl
name_no_colon (c ∷ n) h = ground (arith, name_no_colon n)

all-append : (p : ℕ → Bool) (x y : Text) → all p x ≡ true → all p y ≡ true → all p (x ++ y) ≡ true
all-append p [] y h k = k
all-append p (c ∷ x) y h k = ground (arith, all-append p x y)

is_name_no_colon : (n : Text) → is_name n ≡ true → all not_colon n ≡ true
unfolding is_name_char not_colon
is_name_no_colon [] h = refl
is_name_no_colon (c ∷ n) h = ground (arith, name_no_colon n)

is_sub_no_colon : (u : Text) → is_sub u ≡ true → all not_colon u ≡ true
unfolding is_name_char not_colon
is_sub_no_colon [] h = refl
is_sub_no_colon (c ∷ u) h = ground (arith, is_name_no_colon u)

name_ends : (t : Text) → ends is_path_char t ≡ true → ends is_name_char t ≡ true
unfolding is_path_char
name_ends [] h = refl
name_ends (c ∷ t) h = ground arith

sub_name_ends :
    (u t : Text) → is_sub u ≡ true → ends is_path_char t ≡ true → ends is_name_char (u ++ t) ≡ true
unfolding is_name_char
sub_name_ends [] t h e = name_ends t e
sub_name_ends (c ∷ u) t h e = ground arith

sub_some : (s sub r : Text) → sub_attribute_name s ≡ some (sub, r) → is_sub (b'.' ∷ sub) ≡ true
unfolding sub_attribute_name
sub_some [] sub r h = cc
sub_some (c ∷ s) sub r h = ground (arith, attribute_name-some s sub r)

with_sub_some :
    (path s p r : Text)
    → with_sub path s (sub_attribute_name s) ≡ (p, r)
    → (u : Text) × (is_sub u ≡ true) × (p ≡ path ++ u)
unfolding sub_attribute_name with_sub
with_sub_some path s p r h = elim (Option-cases (sub_attribute_name s)) [
  | inl n ↦ ([], refl, ground (arith, append-nil path))
  | inr ((sub, rest), found) ↦ (b'.' ∷ sub, sub_some s sub rest found, ground arith)
]

sub_attribute_name-append :
    (path u t : Text)
    → is_sub u ≡ true
    → ends is_path_char t ≡ true
    → with_sub path (u ++ t) (sub_attribute_name (u ++ t)) ≡ (path ++ u, t)
unfolding sub_attribute_name with_sub is_path_char
sub_attribute_name-append path [] [] h e = ap (λ x. (x, [])) (sym (append-nil path))
sub_attribute_name-append path [] (c ∷ t) h e = ground (arith, append-nil path)
sub_attribute_name-append path (c ∷ u) t h e =
    ground (arith, attribute_name-append u t, name_ends t e, ==_iff c b'.')

named_path-append :
    (p n u t : Text)
    → is_name n ≡ true
    → is_sub u ≡ true
    → ends is_path_char t ≡ true
    → named_path p (n ++ (u ++ t)) ≡ some ((p ++ n) ++ u, t)
unfolding named_path
named_path-append p n u t h k e = ground (
  arith,
  attribute_name-append n (u ++ t) h (sub_name_ends u t k e),
  sub_attribute_name-append (p ++ n) u t k e,
)

path_shape :
    (p s a r : Text)
    → named_path p s ≡ some (a, r)
    → (n u : Text) × (is_name n ≡ true) × (is_sub u ≡ true) × (a ≡ (p ++ n) ++ u)
unfolding named_path
path_shape p s a r h = elim (Option-cases (attribute_name s)) [
  | inl n ↦ ground arith
  | inr ((name, rest), found) ↦
      let (u, k, same) = with_sub_some (p ++ name) rest a r (ground arith) in
      (name, u, attribute_name-some s name rest found, k, same)
]

scan_none :
    (n u t : Text)
    → is_name n ≡ true
    → is_sub u ≡ true
    → ends is_path_char t ≡ true
    → uri_scan false (n ++ (u ++ t)) ≡ none
unfolding not_colon
scan_none n u t h k e = rw (sym (append_assoc n u t)) (
    uri_scan-none false (n ++ u) t
      (all-append not_colon n u (is_name_no_colon n h) (is_sub_no_colon u k)) e)

prefix_none :
    (n u t : Text)
    → is_name n ≡ true
    → is_sub u ≡ true
    → ends is_path_char t ≡ true
    → uri_prefix (n ++ (u ++ t)) ≡ none
unfolding uri_prefix is_name_char nat_eq not_colon
prefix_none [] u t h k e = cc
prefix_none (c ∷ n) u t h k e = ground (
  arith,
  ap (λ x. uri_scan true x) (append_assoc n u t),
  uri_scan-none true (n ++ u) t
      (all-append not_colon n u (name_no_colon n (ground arith)) (is_sub_no_colon u k)) e,
)

-- An attribute path is read whole in front of a text that cannot go on with it.
pub attribute_path-append :
    (a t : Text)
    → IsAttribute a
    → ends is_path_char t ≡ true
    → attribute_path (a ++ t) ≡ some (a, t)
unfolding IsAttribute attribute_path
attribute_path-append a t (p, n, u, inl bare, h, k, same) e =
    rw (same, bare)
      (ground
        (arith, append_assoc n u t, prefix_none n u t h k e, named_path-append [] n u t h k e))
attribute_path-append a t (p, n, u, inr uri, h, k, same) e = rw same (
    ground (
      arith,
      append_assoc (p ++ n) u t,
      append_assoc p n (u ++ t),
      uri_prefix-append p p [] (n ++ (u ++ t)) uri (scan_none n u t h k e),
      named_path-append p n u t h k e,
    ))

-- What the grammar reads as an attribute path has its shape.
pub attribute_path-some : (s a r : Text) → attribute_path s ≡ some (a, r) → IsAttribute a
unfolding IsAttribute attribute_path
attribute_path-some s a r h = elim (Option-cases (uri_prefix s)) [
  | inl x ↦
      let (n, u, y, k, same) = path_shape [] s a r (ground arith) in
      ([], n, u, inl refl, y, k, same)
  | inr ((p, rest), found) ↦
      let (n, u, y, k, same) = path_shape p rest a r (ground arith) in
      (p, n, u, inr (prefix_again s p rest found), y, k, same)
]
