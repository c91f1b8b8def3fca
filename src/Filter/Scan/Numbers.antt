-- ===== src/Filter/Scan/Numbers.antt =====
-- pkg/filter/grammar.go: what the parser of a number reads, it reads again in front of another text.
use scim_go.Prelude.{
  Text, true, some, [], ◌∷◌, ◌++◌, ◌==◌, list_eq, nat_eq, ◌||◌, ◌≡◌, refl, arith, ◌⊎◌, inl, inr,
  Bool-cases, Option-cases, ℕ, sym, ap, ◌∙◌, ==_iff,
}
use mathlib.Core.List.{append_assoc}
use scim_go.Filter.Scan.{is_digit, whole, optional, fraction, exponent, unsigned, number_lexeme}
use scim_go.Filter.Scan.Names.{ends}
use scim_go.Filter.Scan.Digits.{
  is_number_char, is_whole, is_fraction, is_exponent, whole-some, whole-append, fraction_some,
  fraction-append, exponent_some, exponent-append,
}

exponent_ends :
    (e t : Text)
    → is_exponent e ≡ true
    → ends is_number_char t ≡ true
    → (ends is_digit (e ++ t) ≡ true) × (ends (λ c. c == b'.') (e ++ t) ≡ true)
unfolding is_number_char
exponent_ends [] [] h k = (refl, refl)
exponent_ends [] (c ∷ t) h k = ground arith
exponent_ends (c ∷ e) t h k = ground arith

fraction_ends :
    (f e t : Text)
    → is_fraction f ≡ true
    → is_exponent e ≡ true
    → ends is_number_char t ≡ true
    → ends is_digit (f ++ (e ++ t)) ≡ true
fraction_ends [] e t h k n = (exponent_ends e t k n).0
fraction_ends (c ∷ f) e t h k n = ground arith

-- A text that has the shape of a number without a sign, and of a number.
unfoldable pub IsUnsigned : Text → Type 0
IsUnsigned x =
    (w f e : Text) × (is_whole w ≡ true)
    × (is_fraction f ≡ true)
    × (is_exponent e ≡ true)
    × (x ≡ w ++ (f ++ e))

unfoldable pub IsNumber : Text → Type 0
unfolding IsUnsigned
IsNumber x = IsUnsigned x ⊎ ((y : Text) × (x ≡ b'-' ∷ y) × IsUnsigned y)

unsigned-append :
    (x t : Text) → IsUnsigned x → ends is_number_char t ≡ true → unsigned (x ++ t) ≡ some (x, t)
unfolding IsUnsigned unsigned
unsigned-append x t (w, f, e, hw, hf, he, same) k = rw same (
    ground (
      arith,
      append_assoc w (f ++ e) t,
      append_assoc f e t,
      whole-append w (f ++ (e ++ t)) hw (fraction_ends f e t hf he k),
      fraction-append f (e ++ t) hf (exponent_ends e t he k).0 (exponent_ends e t he k).1,
      exponent-append e t he k,
    ))

unsigned-some : (s x r : Text) → unsigned s ≡ some (x, r) → IsUnsigned x
unfolding IsUnsigned unsigned
unsigned-some s x r h = elim (Option-cases (whole s)) [
  | inl n ↦ ground arith
  | inr ((w, s1), found) ↦
      let fs = optional (fraction s1) s1 in
      let es = optional (exponent fs.1) fs.1 in
      (
        w,
        fs.0,
        es.0,
        whole-some s w s1 found,
        fraction_some s1 fs.0 fs.1 refl,
        exponent_some fs.1 es.0 es.1 refl,
        ground arith,
      )
]

no_minus : (w x : Text) → is_whole w ≡ true → number_lexeme (w ++ x) ≡ unsigned (w ++ x)
unfolding number_lexeme
no_minus [] x h = cc
no_minus (c ∷ w) x h = ground arith

-- A number is read whole in front of a text that cannot go on with it.
pub number_lexeme-append :
    (x t : Text) → IsNumber x → ends is_number_char t ≡ true → number_lexeme (x ++ t) ≡ some (x, t)
unfolding IsNumber IsUnsigned number_lexeme
number_lexeme-append x t (inl (w, f, e, hw, hf, he, same)) k =
    ap (λ y. number_lexeme (y ++ t)) same
    ∙ ap number_lexeme (append_assoc w (f ++ e) t)
    ∙ no_minus w ((f ++ e) ++ t) hw
    ∙ ap unsigned (sym (append_assoc w (f ++ e) t) ∙ ap (λ y. y ++ t) (sym same))
    ∙ unsigned-append x t (w, f, e, hw, hf, he, same) k
number_lexeme-append x t (inr (y, same, u)) k = rw same (ground (arith, unsigned-append y t u k))

-- What the grammar reads as a number has its shape.
pub number_lexeme-some : (s x r : Text) → number_lexeme s ≡ some (x, r) → IsNumber x
unfolding IsNumber number_lexeme
number_lexeme-some [] x r h = cc
number_lexeme-some (c ∷ s) x r h = elim (Bool-cases (c == b'-')) [
  | inr n ↦ inl (unsigned-some (c ∷ s) x r (ground arith))
  | inl m ↦ elim (Option-cases (unsigned s)) [
    | inl n ↦ ground arith
    | inr ((y, r'), found) ↦ inr (y, ground (arith, ==_iff c b'-'), unsigned-some s y r' found)
  ]
]

whole_begins :
    (w x : Text)
    → is_whole w ≡ true
    → (c : ℕ) × (y : Text) × ((is_digit c || c == b'-') ≡ true) × (w ++ x ≡ c ∷ y)
whole_begins [] x h = cc
whole_begins (c ∷ w) x h = (c, w ++ x, ground arith, refl)

-- A number begins with a digit or a minus sign.
pub number_begins :
    (x : Text)
    → IsNumber x
    → (c : ℕ) × (y : Text) × ((is_digit c || c == b'-') ≡ true) × (x ≡ c ∷ y)
unfolding IsNumber IsUnsigned nat_eq
number_begins x (inl (w, f, e, hw, hf, he, same)) =
    let (c, y, d, begins) = whole_begins w (f ++ e) hw in (c, y, d, same ∙ begins)
number_begins x (inr (y, same, u)) = (b'-', y, refl, same)
