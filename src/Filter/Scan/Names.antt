-- ===== src/Filter/Scan/Names.antt =====
-- pkg/filter/grammar.go: what the parsers of names and attribute paths read, and that they read it
-- again in front of another text.
use scim_go.Prelude.{
  Text, Bool, true, false, Option, none, some, [], ◌∷◌, ◌++◌, ◌==◌, list_eq, nat_eq, ◌&&◌, ◌||◌,
  not, all, ◌≡◌, refl, arith, ◌⊎◌, inl, inr, Bool-cases, ℕ, if◌then◌else◌, sym, ◌∙◌,
}
use scim_go.Filter.Scan.{
  is_name_char, is_uri_char, is_letter, span, attribute_name, uri_scan, or_stop, push,
}

-- The text is empty, or its first byte fails the test.
abbrev pub ends : (ℕ → Bool) → Text → Bool
ends p [] = true
ends p (c ∷ s) = not (p c)

pub span-append :
    (p : ℕ → Bool) (k t : Text) → all p k ≡ true → ends p t ≡ true → span p (k ++ t) ≡ (k, t)
unfolding span
span-append p [] [] h e = refl
span-append p [] (c ∷ t) h e = ground arith
span-append p (c ∷ k) t h e = ground (arith, span-append p k t)

pub all-span : (p : ℕ → Bool) (s : Text) → all p (span p s).0 ≡ true
unfolding span
all-span p [] = refl
all-span p (c ∷ s) = ground (arith, all-span p s)

abbrev pub is_name : Text → Bool
is_name [] = false
is_name (c ∷ s) = is_letter c && all is_name_char s

pub attribute_name-some : (s n r : Text) → attribute_name s ≡ some (n, r) → is_name n ≡ true
unfolding attribute_name
attribute_name-some [] n r h = cc
attribute_name-some (c ∷ s) n r h = ground (arith, all-span is_name_char s)

pub attribute_name-append :
    (n t : Text)
    → is_name n ≡ true
    → ends is_name_char t ≡ true
    → attribute_name (n ++ t) ≡ some (n, t)
unfolding attribute_name
attribute_name-append [] t h e = cc
attribute_name-append (c ∷ n) t h e = ground (arith, span-append is_name_char n t)

-- No byte that follows a path belongs to it.
unfoldable pub is_path_char : ℕ → Bool
is_path_char c = is_name_char c || is_uri_char c || c == b':' || c == b'.'

push-some :
    (c : ℕ) (o : Option (Text × Text)) (p r : Text)
    → push c o ≡ some (p, r)
    → (p' : Text) × (o ≡ some (p', r)) × (p ≡ c ∷ p')
push-some c none p r h = cc
push-some c (some (p', r')) p r h = (p', cc, cc)

or_stop-some :
    (c : ℕ) (s : Text) (o : Option (Text × Text)) (p r : Text)
    → or_stop c s o ≡ some (p, r)
    → (p ≡ c ∷ []) ⊎ ((p' : Text) × (o ≡ some (p', r)) × (p ≡ c ∷ p'))
unfolding or_stop
or_stop-some c s none p r h = inl cc
or_stop-some c s (some (p', r')) p r h = inr (p', cc, cc)

uri_scan_nil : (b : Bool) → uri_scan b [] ≡ none
unfolding uri_scan
uri_scan_nil b = refl

uri_step :
    (b : Bool) (c : ℕ) (s : Text)
    → is_uri_char c ≡ true
    → uri_scan b (c ∷ s) ≡ push c (uri_scan true s)
unfolding uri_scan
uri_step b c s h = ground arith

uri_colon :
    (b : Bool) (c : ℕ) (s : Text)
    → is_uri_char c ≡ false
    → uri_scan b (c ∷ s) ≡ (if b && c == b':' then or_stop c s (uri_scan false s) else none)
unfolding uri_scan
uri_colon b c s h = ground arith

colon_append :
    (b : Bool) (c : ℕ) (s p r t : Text)
    → is_uri_char c ≡ false
    → uri_scan b (c ∷ s) ≡ some (p, r)
    → uri_scan false t ≡ none
    → ((p' : Text) → uri_scan false s ≡ some (p', r) → uri_scan false (p' ++ t) ≡ some (p', t))
    → uri_scan b (p ++ t) ≡ some (p, t)
unfolding or_stop
colon_append b c s p r t n h e ih = elim (Bool-cases (b && c == b':')) [
  | inr f ↦ ground (arith, uri_colon b c s n)
  | inl y ↦ elim (or_stop-some c s (uri_scan false s) p r (ground (arith, uri_colon b c s n))) [
    | inl same ↦ rw same (ground (arith, uri_colon b c t n))
    | inr (p', found, same) ↦ rw same (ground (arith, uri_colon b c (p' ++ t) n, ih p' found))
  ]
]

-- The scan reads its own result again when no colon ends a piece of the text behind it.
pub uri_scan-append :
    (b : Bool) (s p r t : Text)
    → uri_scan b s ≡ some (p, r)
    → uri_scan false t ≡ none
    → uri_scan b (p ++ t) ≡ some (p, t)
unfolding or_stop
uri_scan-append b [] p r t h e = cc (h, uri_scan_nil b)
uri_scan-append b (c ∷ s) p r t h e = elim (Bool-cases (is_uri_char c)) [
  | inl y ↦
      let (p', found, same) = push-some c (uri_scan true s) p r (sym (uri_step b c s y) ∙ h) in
      let ih = uri_scan-append true s p' r t found e in
      rw same (rw (uri_step b c (p' ++ t) y) (rw ih refl))
  | inr n ↦ colon_append b c s p r t n h e (λ p' found. uri_scan-append false s p' r t found e)
]

pub uri_scan-none :
    (b : Bool) (u t : Text)
    → all (λ c. not (c == b':')) u ≡ true
    → ends is_path_char t ≡ true
    → uri_scan b (u ++ t) ≡ none
unfolding uri_scan is_path_char
uri_scan-none b [] [] h e = refl
uri_scan-none b [] (c ∷ t) h e = ground arith
uri_scan-none b (c ∷ u) t h e = ground (arith, uri_scan-none true u t)
