-- ===== src/Filter/Grammar/Attributes.antt =====
-- pkg/filter/grammar.go: a text that begins with an attribute path is no group.
use scim_go.Prelude.{
  ℕ, Text, Bool, true, false, none, some, [], ◌∷◌, ◌++◌, ◌≡◌, refl, ap, ◌∙◌, bytes, arith, ◌==◌,
  nat_eq, list_eq, ◌||◌, not, all, Option-cases, inl, inr, ◌⊎◌,
}
use scim_go.Filter.Scan.{
  Parser, fold_str, is_name_char, is_uri_char, uri_scan, uri_prefix, or_stop, space,
}
use scim_go.Filter.Scan.Names.{ends, is_name, is_path_char}
use scim_go.Filter.Scan.Paths.{IsAttribute, is_sub}
use scim_go.Filter.Node.{Node}
use scim_go.Filter.Grammar.{paren_group, enclosed, byte, optional_space}

uri_chars : (b : Bool) (s p r : Text) → uri_scan b s ≡ some (p, r) → all is_path_char p ≡ true
unfolding uri_scan or_stop is_path_char
uri_chars b [] p r h = cc
uri_chars b (c ∷ s) p r h = elim (Option-cases (uri_scan (is_uri_char c) s)) [
  | inl n ↦ ground arith
  | inr ((p', r'), found) ↦ ground (arith, uri_chars (is_uri_char c) s p' r' found)
]

name_chars : (n : Text) → all is_name_char n ≡ true → all is_path_char n ≡ true
unfolding is_path_char
name_chars [] h = refl
name_chars (c ∷ n) h = ground (arith, name_chars n)

enclosed-none :
    (sub : Parser Node) (z : Text)
    → ends (λ d. d == b'(') z ≡ true
    → enclosed b'(' sub b')' z ≡ none
unfolding enclosed byte
enclosed-none sub [] h = refl
enclosed-none sub (c ∷ z) h = ground arith

no_space : (c : ℕ) (x : Text) → (c == b' ') ≡ false → optional_space (c ∷ x) ≡ c ∷ x
unfolding space
no_space c x h = ground arith

pub path_char_lem : (c : ℕ) → is_path_char c ≡ true → ((c == b' ') ≡ false) × ((c == b'(') ≡ false)
unfolding is_path_char is_name_char is_uri_char
path_char_lem c h = ground arith

fold_not :
    (a b c : ℕ) (r : Text)
    → (fold_str (bytes "not") (a ∷ b ∷ c ∷ r) ≡ none)
      ⊎ (fold_str (bytes "not") (a ∷ b ∷ c ∷ r) ≡ some r)
unfolding fold_str
fold_not a b c r = ground arith

not_group :
    (sub : Parser Node) (a b c : ℕ) (r : Text)
    → (a == b'(') ≡ false
    → ends (λ d. d == b'(') (optional_space r) ≡ true
    → paren_group sub (a ∷ b ∷ c ∷ r) ≡ none
unfolding paren_group
not_group sub a b c r h e = elim (fold_not a b c r) [
  | inl n ↦ ground (arith, enclosed-none sub (a ∷ b ∷ c ∷ r))
  | inr found ↦ ground (arith, enclosed-none sub (optional_space r) e)
]

all_cons :
    (p : ℕ → Bool) (c : ℕ) (s : Text) → all p (c ∷ s) ≡ true → (p c ≡ true) × (all p s ≡ true)
all_cons p c s h = ground arith

-- A group does not begin with the bytes of a path and one more.
pub paren_group-none :
    (sub : Parser Node) (a : Text) (c : ℕ) (x : Text)
    → all is_path_char a ≡ true
    → (a == []) ≡ false
    → (c == b' ' || c == b'[') ≡ true
    → ends (λ d. d == b'(') (optional_space (c ∷ x)) ≡ true
    → paren_group sub (a ++ c ∷ x) ≡ none
unfolding paren_group is_path_char is_name_char is_uri_char
paren_group-none sub [] c x h n s e = ground arith
paren_group-none sub (a1 ∷ []) c x h n s e = ground arith
paren_group-none sub (a1 ∷ a2 ∷ []) c x h n s e = ground arith
paren_group-none sub (a1 ∷ a2 ∷ a3 ∷ []) c x h n s e =
    not_group sub a1 a2 a3 (c ∷ x)
      (path_char_lem a1 (all_cons is_path_char a1 (a2 ∷ a3 ∷ []) h).0).1 e
paren_group-none sub (a1 ∷ a2 ∷ a3 ∷ a4 ∷ a) c x h n s e =
    let first = all_cons is_path_char a1 (a2 ∷ a3 ∷ a4 ∷ a) h in
    let second = all_cons is_path_char a2 (a3 ∷ a4 ∷ a) first.1 in
    let third = all_cons is_path_char a3 (a4 ∷ a) second.1 in
    let (space_free, open_free) = path_char_lem a4 (all_cons is_path_char a4 a third.1).0 in
    not_group sub a1 a2 a3 (a4 ∷ (a ++ c ∷ x)) (path_char_lem a1 first.0).1
      (ap (ends (λ d. d == b'(')) (no_space a4 (a ++ c ∷ x) space_free) ∙ ap not open_free)

all-append : (p : ℕ → Bool) (x y : Text) → all p x ≡ true → all p y ≡ true → all p (x ++ y) ≡ true
all-append p [] y h k = k
all-append p (c ∷ x) y h k = ground (arith, all-append p x y)

prefix_chars : (p : Text) → (p ≡ []) ⊎ (uri_prefix p ≡ some (p, [])) → all is_path_char p ≡ true
unfolding uri_prefix is_path_char is_name_char is_uri_char
prefix_chars [] h = refl
prefix_chars (c ∷ p) (inl h) = cc
prefix_chars (c ∷ p) (inr h) = ground (arith, uri_chars true p p [])

is_name_chars : (n : Text) → is_name n ≡ true → all is_path_char n ≡ true
unfolding is_name_char
is_name_chars [] h = cc
is_name_chars (c ∷ n) h = name_chars (c ∷ n) (ground arith)

sub_chars : (u : Text) → is_sub u ≡ true → all is_path_char u ≡ true
unfolding is_path_char
sub_chars [] h = refl
sub_chars (c ∷ u) h = ground (arith, is_name_chars u)

pub attribute_chars : (a : Text) → IsAttribute a → all is_path_char a ≡ true
unfolding IsAttribute
attribute_chars a (p, n, u, shape, h, k, same) =
    ap (all is_path_char) same
    ∙ all-append is_path_char (p ++ n) u
        (all-append is_path_char p n (prefix_chars p shape) (is_name_chars n h)) (sub_chars u k)

named_begins : (p n u : Text) → is_name n ≡ true → (c : ℕ) × (y : Text) × ((p ++ n) ++ u ≡ c ∷ y)
named_begins p [] u h = cc
named_begins [] (c ∷ n) u h = (c, n ++ u, refl)
named_begins (c ∷ p) (d ∷ n) u h = (c, (p ++ d ∷ n) ++ u, refl)

pub attribute_begins : (a : Text) → IsAttribute a → (c : ℕ) × (y : Text) × (a ≡ c ∷ y)
unfolding IsAttribute
attribute_begins a (p, n, u, shape, h, k, same) =
    let (c, y, begins) = named_begins p n u h in (c, y, same ∙ begins)
