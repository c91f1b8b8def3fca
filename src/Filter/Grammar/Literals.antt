-- ===== src/Filter/Grammar/Literals.antt =====
-- pkg/filter/grammar.go: comparisonValue reads a literal that the printer wrote.
use scim_go.Prelude.{
  ℕ, Text, Bool, true, false, some, [], ◌∷◌, ◌++◌, ◌≡◌, refl, sym, ap, ◌∙◌, arith, ◌==◌, nat_eq,
  ◌||◌, Option-cases, inl, inr, ==_iff,
}
use scim_go.Core.Value.{Value, null, text, boolean, number}
use scim_go.Filter.Strings.{Strings}
use scim_go.Filter.Scan.{str, is_digit, number_lexeme, string_lexeme, string_scan}
use scim_go.Filter.Scan.Names.{ends}
use scim_go.Filter.Scan.Digits.{is_number_char}
use scim_go.Filter.Scan.Numbers.{IsNumber, number_lexeme-append, number_begins}
use scim_go.Filter.Visitor.{stringify_value}
use scim_go.Filter.Grammar.{constant_or, comparison_value, number_value, string_value}
use scim_go.Filter.Grammar.Printing.{IsLiteral}

string_scan-append :
    (b : Bool) (s p r t : Text)
    → string_scan b s ≡ some (p, r)
    → string_scan b (p ++ t) ≡ some (p, t)
unfolding string_scan
string_scan-append true [] p r t h = cc
string_scan-append false [] p r t h = cc
string_scan-append true (c ∷ s) p r t h = elim (Option-cases (string_scan false s)) [
  | inl n ↦ ground arith
  | inr ((p', r'), found) ↦ ground (arith, string_scan-append false s p' r' t found)
]
string_scan-append false (c ∷ s) p r t h = elim (Option-cases (string_scan (c == b'\\') s)) [
  | inl n ↦ ground arith
  | inr ((p', r'), found) ↦ ground (arith, string_scan-append (c == b'\\') s p' r' t found)
]

string_lexeme-append :
    (s t : Text) → string_lexeme s ≡ some (s, []) → string_lexeme (s ++ t) ≡ some (s, t)
unfolding string_lexeme
string_lexeme-append [] t h = cc
string_lexeme-append (c ∷ s) t h = elim (Option-cases (string_scan false s)) [
  | inl n ↦ ground arith
  | inr ((p', r'), found) ↦ ground (arith, string_scan-append false s p' r' t found)
]

pub string_begins : (s p r : Text) → string_lexeme s ≡ some (p, r) → (y : Text) × (s ≡ b'"' ∷ y)
unfolding string_lexeme
string_begins [] p r h = cc
string_begins (c ∷ s) p r h = (s, ground (arith, ==_iff c b'"'))

-- A constant does not begin with a quote, a digit or a minus sign.
number_or_string : ℕ → Bool
number_or_string c = is_digit c || c == b'-' || c == b'"'

module _ ⦃S : Strings⦄ where
  no_constant :
      (c : ℕ) (s : Text)
      → number_or_string c ≡ true
      → comparison_value (c ∷ s) ≡ number_value (c ∷ s)
  unfolding number_or_string comparison_value constant_or str
  no_constant c s h = ground arith

  digit_or_minus : (c : ℕ) → (is_digit c || c == b'-') ≡ true → number_or_string c ≡ true
  unfolding number_or_string
  digit_or_minus c h = ground arith

  no_number : (s : Text) → number_value (b'"' ∷ s) ≡ string_value (b'"' ∷ s)
  unfolding number_value number_lexeme nat_eq
  no_number s = refl

  string_read :
      (s t : Text) → S.is_valid s ≡ true → string_value (S.marshal s ++ t) ≡ some (text s, t)
  unfolding string_value
  string_read s t h =
      ground
        (arith, string_lexeme-append (S.marshal s) t (S.marshal_string s), S.unmarshal-marshal s h)

  number_read :
      (w t : Text)
      → IsNumber w
      → ends is_number_char t ≡ true
      → number_value (w ++ t) ≡ some (number w, t)
  unfolding number_value
  number_read w t h e = ground (arith, number_lexeme-append w t h e)

  quoted :
      (s y t : Text)
      → S.is_valid s ≡ true
      → S.marshal s ≡ b'"' ∷ y
      → comparison_value (S.marshal s ++ t) ≡ some (text s, t)
  unfolding number_or_string nat_eq
  quoted s y t h begins =
      ap (λ x. comparison_value (x ++ t)) begins
      ∙ no_constant b'"' (y ++ t) refl
      ∙ no_number (y ++ t)
      ∙ ap (λ x. string_value (x ++ t)) (sym begins)
      ∙ string_read s t h

  -- comparisonValue reads what stringifyValue wrote, if what follows cannot go on with a number.
  pub comparison_value-stringify :
      (v : Value) (t : Text)
      → IsLiteral v
      → ends is_number_char t ≡ true
      → comparison_value (stringify_value v ++ t) ≡ some (v, t)
  unfolding IsLiteral stringify_value comparison_value constant_or number_value
  comparison_value-stringify null t h e = ground arith
  comparison_value-stringify (boolean true) t h e = ground arith
  comparison_value-stringify (boolean false) t h e = ground arith
  comparison_value-stringify (text s) t h e =
      let (y, begins) = string_begins (S.marshal s) (S.marshal s) [] (S.marshal_string s) in
      quoted s y t h begins
  comparison_value-stringify (number w) t h e =
      let (c, y, d, begins) = number_begins w h in
      rw begins (
        no_constant c (y ++ t) (digit_or_minus c d)
        ∙ ap number_value (ap (λ x. x ++ t) (sym begins))
        ∙ number_read w t h e
        ∙ ap (λ x. some (number x, t)) begins)
  comparison_value-stringify _ t h e = absurd h
