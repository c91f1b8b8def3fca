-- ===== src/Filter/Scan/Digits.antt =====
-- pkg/filter/grammar.go: the digits, the fraction and the exponent of a number, and that each is read
-- again in front of another text.
use scim_go.Prelude.{
  Text, Bool, true, false, some, [], ◌∷◌, ◌++◌, ◌==◌, list_eq, nat_eq, ◌&&◌, ◌||◌, all, ◌≡◌, refl,
  arith, inl, inr, Bool-cases, Option-cases, ℕ, if◌then◌else◌, ==_iff,
}
use scim_go.Filter.Scan.{is_digit, digits_from, whole, optional, fraction, signed_digits, exponent}
use scim_go.Filter.Scan.Names.{ends, span-append, all-span}

-- No byte that follows a number belongs to it.
unfoldable pub is_number_char : ℕ → Bool
is_number_char c = is_digit c || c == b'.' || c == b'e' || c == b'E' || c == b'+' || c == b'-'

abbrev pub is_digits : Text → Bool
is_digits [] = false
is_digits (c ∷ s) = is_digit c && all is_digit s

-- an integer without a needless zero
abbrev pub is_whole : Text → Bool
is_whole [] = false
is_whole (c ∷ s) = if c == b'0' then s == [] else is_digit c && all is_digit s

abbrev pub is_fraction : Text → Bool
is_fraction [] = true
is_fraction (c ∷ s) = c == b'.' && is_digits s

abbrev pub is_signed : Text → Bool
is_signed [] = false
is_signed (c ∷ s) = if c == b'+' || c == b'-' then is_digits s else is_digits (c ∷ s)

abbrev pub is_exponent : Text → Bool
is_exponent [] = true
is_exponent (c ∷ s) = (c == b'e' || c == b'E') && is_signed s

digit_ends : (t : Text) → ends is_number_char t ≡ true → ends is_digit t ≡ true
unfolding is_number_char
digit_ends [] h = refl
digit_ends (c ∷ t) h = ground arith

digits_from-some : (s w r : Text) → digits_from s ≡ some (w, r) → is_digits w ≡ true
unfolding digits_from
digits_from-some [] w r h = cc
digits_from-some (c ∷ s) w r h = ground (arith, all-span is_digit s)

digits_from-append :
    (w t : Text) → is_digits w ≡ true → ends is_digit t ≡ true → digits_from (w ++ t) ≡ some (w, t)
unfolding digits_from
digits_from-append [] t h e = cc
digits_from-append (c ∷ w) t h e = ground (arith, span-append is_digit w t)

pub whole-some : (s w r : Text) → whole s ≡ some (w, r) → is_whole w ≡ true
unfolding whole
whole-some [] w r h = cc
whole-some (c ∷ s) w r h = ground (arith, all-span is_digit s)

pub whole-append :
    (w t : Text) → is_whole w ≡ true → ends is_digit t ≡ true → whole (w ++ t) ≡ some (w, t)
unfolding whole
whole-append [] t h e = cc
whole-append (c ∷ w) t h e = ground (arith, span-append is_digit w t, ==_iff w [])

pub fraction_some : (s f r : Text) → optional (fraction s) s ≡ (f, r) → is_fraction f ≡ true
unfolding fraction
fraction_some [] f r h = ground arith
fraction_some (c ∷ s) f r h = elim (Option-cases (digits_from s)) [
  | inl n ↦ ground arith
  | inr ((w, r'), found) ↦ ground (arith, digits_from-some s w r' found)
]

pub fraction-append :
    (f t : Text)
    → is_fraction f ≡ true
    → ends is_digit t ≡ true
    → ends (λ c. c == b'.') t ≡ true
    → optional (fraction (f ++ t)) (f ++ t) ≡ (f, t)
unfolding fraction
fraction-append [] [] h e d = refl
fraction-append [] (c ∷ t) h e d = ground arith
fraction-append (c ∷ f) t h e d = ground (arith, digits_from-append f t)

digits_signed : (w : Text) → is_digits w ≡ true → is_signed w ≡ true
digits_signed [] h = cc
digits_signed (c ∷ w) h = ground arith

signed_digits-some : (s w r : Text) → signed_digits s ≡ some (w, r) → is_signed w ≡ true
unfolding signed_digits
signed_digits-some [] w r h = cc
signed_digits-some (c ∷ s) w r h = elim (Bool-cases (c == b'+' || c == b'-')) [
  | inl y ↦ elim (Option-cases (digits_from s)) [
    | inl n ↦ ground arith
    | inr ((w', r'), found) ↦ ground (arith, digits_from-some s w' r' found)
  ]
  | inr n ↦ digits_signed w (digits_from-some (c ∷ s) w r (ground arith))
]

signed_digits-append :
    (w t : Text)
    → is_signed w ≡ true
    → ends is_digit t ≡ true
    → signed_digits (w ++ t) ≡ some (w, t)
unfolding signed_digits
signed_digits-append [] t h e = cc
signed_digits-append (c ∷ w) t h e =
    ground (arith, digits_from-append w t, digits_from-append (c ∷ w) t)

pub exponent_some : (s w r : Text) → optional (exponent s) s ≡ (w, r) → is_exponent w ≡ true
unfolding exponent
exponent_some [] w r h = ground arith
exponent_some (c ∷ s) w r h = elim (Option-cases (signed_digits s)) [
  | inl n ↦ ground arith
  | inr ((w', r'), found) ↦ ground (arith, signed_digits-some s w' r' found)
]

pub exponent-append :
    (w t : Text)
    → is_exponent w ≡ true
    → ends is_number_char t ≡ true
    → optional (exponent (w ++ t)) (w ++ t) ≡ (w, t)
unfolding exponent is_number_char
exponent-append [] [] h e = refl
exponent-append [] (c ∷ t) h e = ground arith
exponent-append (c ∷ w) t h e = ground (arith, signed_digits-append w t, digit_ends t e)
