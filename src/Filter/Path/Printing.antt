-- ===== src/Filter/Path/Printing.antt =====
-- pkg/filter/attr_path.go: splitAttrPath and String together.
use scim_go.Prelude.{
  Text, Bool, true, false, some, [], ◌∷◌, ◌++◌, ◌==◌, list_eq, nat_eq, all, ◌≡◌, refl, arith, ◌⊎◌,
  inl, inr, Option-cases, ℕ, sym, ap, ◌∙◌, ==_iff,
}
use mathlib.Core.List.{append_assoc, append-nil}
use scim_go.Filter.Scan.{is_name_char, uri_prefix}
use scim_go.Filter.Scan.Names.{ends, is_name}
use scim_go.Filter.Scan.Paths.{IsAttribute, is_sub}
use scim_go.Filter.Path.{
  cut, cut_last, cut_last_step, after_name, before_name, path_text, split_name, split_attr_path,
}

ends_in_dot : Text → Bool
ends_in_dot [] = false
ends_in_dot (c ∷ []) = c == b'.'
ends_in_dot (c ∷ d ∷ s) = ends_in_dot (d ∷ s)

cut_lem : (s : Text) → ends_in_dot s ≡ false → (cut b'.' s).0 ++ after_name (cut b'.' s).1 ≡ s
unfolding cut ends_in_dot after_name
cut_lem [] h = refl
cut_lem (c ∷ []) h = ground arith
cut_lem (c ∷ d ∷ s) h = ground (arith, ==_iff c b'.', cut_lem (d ∷ s))

cut_last-some : (s u r : Text) → cut_last b':' s ≡ some (u, r) → s ≡ u ++ b':' ∷ r
unfolding cut_last cut_last_step
cut_last-some [] u r h = cc
cut_last-some (c ∷ s) u r h = elim (Option-cases (cut_last b':' s)) [
  | inl n ↦ ground (arith, ==_iff c b':')
  | inr ((u', r'), found) ↦ ground (arith, cut_last-some s u' r' found)
]

dot-append : (x : Text) (c : ℕ) (y : Text) → ends_in_dot (x ++ c ∷ y) ≡ ends_in_dot (c ∷ y)
unfolding ends_in_dot
dot-append [] c y = refl
dot-append (a ∷ []) c y = refl
dot-append (a ∷ b ∷ x) c y = dot-append (b ∷ x) c y

dot_after : (c : ℕ) (r : Text) → ends_in_dot (c ∷ r) ≡ false → ends_in_dot r ≡ false
unfolding ends_in_dot
dot_after c [] h = refl
dot_after c (d ∷ r) h = h

names_no_dot : (n : Text) → all is_name_char n ≡ true → ends_in_dot n ≡ false
unfolding ends_in_dot is_name_char
names_no_dot [] h = refl
names_no_dot (c ∷ []) h = ground arith
names_no_dot (c ∷ d ∷ n) h = ground (arith, names_no_dot (d ∷ n))

name_no_dot : (n : Text) → is_name n ≡ true → ends_in_dot n ≡ false
unfolding is_name_char
name_no_dot [] h = cc
name_no_dot (c ∷ n) h = names_no_dot (c ∷ n) (ground arith)

sub_no_dot : (x u : Text) → is_name x ≡ true → is_sub u ≡ true → ends_in_dot (x ++ u) ≡ false
unfolding ends_in_dot
sub_no_dot x [] h k = ground (arith, append-nil x, name_no_dot x h)
sub_no_dot x (c ∷ []) h k = ground arith
sub_no_dot x (c ∷ d ∷ u) h k = ground (arith, dot-append x c (d ∷ u), name_no_dot (d ∷ u))

-- What splitAttrPath takes apart, String puts together, if the text begins with no colon and ends
-- with no dot.
split_text :
    (a : Text)
    → ends (λ c. c == b':') a ≡ true
    → ends_in_dot a ≡ false
    → path_text (split_attr_path a) ≡ a
unfolding path_text split_attr_path split_name before_name
split_text a h k = elim (Option-cases (cut_last b':' a)) [
  | inl n ↦ ground (arith, cut_lem a k)
  | inr (([], r), found) ↦ ground (arith, cut_last-some a [] r found)
  | inr ((c ∷ u, r), found) ↦
      let same = cut_last-some a (c ∷ u) r found in
      let tail : ends_in_dot r ≡ false =
        dot_after b':' r (sym (dot-append (c ∷ u) b':' r) ∙ ap ends_in_dot (sym same) ∙ k) in
      ground (arith, same, cut_lem r tail)
]

after_prefix :
    (p n u : Text) → is_name n ≡ true → is_sub u ≡ true → ends_in_dot ((p ++ n) ++ u) ≡ false
after_prefix p [] u h k = cc
after_prefix p (c ∷ n) u h k =
    ap ends_in_dot (append_assoc p (c ∷ n) u) ∙ dot-append p c (n ++ u) ∙ sub_no_dot (c ∷ n) u h k

begins_with_letter :
    (p n u : Text)
    → (p ≡ []) ⊎ (uri_prefix p ≡ some (p, []))
    → is_name n ≡ true
    → ends (λ c. c == b':') ((p ++ n) ++ u) ≡ true
unfolding uri_prefix
begins_with_letter p [] u shape h = cc
begins_with_letter [] (c ∷ n) u shape h = ground arith
begins_with_letter (c ∷ p) n u (inl e) h = cc
begins_with_letter (c ∷ p) n u (inr e) h = ground arith

-- Every attribute path is printed as it was written.
pub path_text-split : (a : Text) → IsAttribute a → path_text (split_attr_path a) ≡ a
unfolding IsAttribute
path_text-split a (p, n, u, shape, h, k, same) =
    split_text a (ap (ends (λ c. c == b':')) same ∙ begins_with_letter p n u shape h)
      (ap ends_in_dot same ∙ after_prefix p n u h k)
