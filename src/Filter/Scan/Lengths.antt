-- ===== src/Filter/Scan/Lengths.antt =====
-- pkg/filter/grammar.go: what a parser of names or of a keyword leaves is shorter than what it was
-- given.
use scim_go.Prelude.{
  ℕ, ◌<◌, ◌≤◌, Text, Bool, true, false, some, [], ◌∷◌, ◌==◌, list_eq, nat_eq, ◌≡◌, arith, inl, inr,
  Option-cases, length,
}
use scim_go.Filter.Scan.{
  is_name_char, is_uri_char, span, attribute_name, uri_scan, or_stop, uri_prefix,
  sub_attribute_name, with_sub, named_path, attribute_path, skip_spaces, space, fold_str, is_digit,
  digits_from, whole, optional, fraction, signed_digits, exponent, unsigned, number_lexeme,
  string_scan, string_lexeme, str,
}

pub length-skip_spaces : (s : Text) → length (skip_spaces s) ≤ length s
unfolding skip_spaces
length-skip_spaces [] = omega arith
length-skip_spaces (c ∷ s) = ground (arith, length-skip_spaces s)

pub length-space : (s r : Text) → space s ≡ some r → length r < length s
unfolding space
length-space [] r h = cc
length-space (c ∷ s) r h = ground (arith, length-skip_spaces s)

pub length-fold_str : (p s r : Text) → fold_str p s ≡ some r → length r ≤ length s
unfolding fold_str
length-fold_str [] s r h = ground arith
length-fold_str (p ∷ ps) [] r h = cc
length-fold_str (p ∷ ps) (c ∷ s) r h = ground (arith, length-fold_str ps s r)

pub length-span : (p : ℕ → Bool) (s : Text) → length (span p s).1 ≤ length s
unfolding span
length-span p [] = omega arith
length-span p (c ∷ s) = ground (arith, length-span p s)

length-attribute_name : (s n r : Text) → attribute_name s ≡ some (n, r) → length r < length s
unfolding attribute_name
length-attribute_name [] n r h = cc
length-attribute_name (c ∷ s) n r h = ground (arith, length-span is_name_char s)

length-uri_scan : (b : Bool) (s p r : Text) → uri_scan b s ≡ some (p, r) → length r < length s
unfolding uri_scan or_stop
length-uri_scan b [] p r h = cc
length-uri_scan b (c ∷ s) p r h = elim (Option-cases (uri_scan (is_uri_char c) s)) [
  | inl n ↦ ground arith
  | inr ((p', r'), found) ↦ ground (arith, length-uri_scan (is_uri_char c) s p' r' found)
]

length-uri_prefix : (s p r : Text) → uri_prefix s ≡ some (p, r) → length r < length s
unfolding uri_prefix
length-uri_prefix [] p r h = cc
length-uri_prefix (c ∷ s) p r h = elim (Option-cases (uri_scan true s)) [
  | inl n ↦ ground arith
  | inr ((p', r'), found) ↦ ground (arith, length-uri_scan true s p' r' found)
]

length-sub_attribute_name :
    (s p r : Text) → sub_attribute_name s ≡ some (p, r) → length r < length s
unfolding sub_attribute_name
length-sub_attribute_name [] p r h = cc
length-sub_attribute_name (c ∷ s) p r h = ground (arith, length-attribute_name s p r)

length-named_path : (prefix s p r : Text) → named_path prefix s ≡ some (p, r) → length r < length s
unfolding named_path with_sub
length-named_path prefix s p r h = elim (Option-cases (attribute_name s)) [
  | inl n ↦ ground arith
  | inr ((n, r1), found) ↦ elim (Option-cases (sub_attribute_name r1)) [
    | inl m ↦ ground (arith, length-attribute_name s n r1 found)
    | inr ((u, r2), more) ↦
        ground (arith, length-attribute_name s n r1 found, length-sub_attribute_name r1 u r2 more)
  ]
]

pub length-attribute_path : (s p r : Text) → attribute_path s ≡ some (p, r) → length r < length s
unfolding attribute_path
length-attribute_path s p r h = elim (Option-cases (uri_prefix s)) [
  | inl n ↦ ground (arith, length-named_path [] s p r)
  | inr ((u, r1), found) ↦
      ground (arith, length-uri_prefix s u r1 found, length-named_path u r1 p r)
]

length-digits_from : (s w r : Text) → digits_from s ≡ some (w, r) → length r ≤ length s
unfolding digits_from
length-digits_from [] w r h = cc
length-digits_from (c ∷ s) w r h = ground (arith, length-span is_digit s)

length-whole : (s w r : Text) → whole s ≡ some (w, r) → length r ≤ length s
unfolding whole
length-whole [] w r h = cc
length-whole (c ∷ s) w r h = ground (arith, length-span is_digit s)

length-fraction : (s : Text) → length (optional (fraction s) s).1 ≤ length s
unfolding fraction
length-fraction [] = ground arith
length-fraction (c ∷ s) = elim (Option-cases (digits_from s)) [
  | inl n ↦ ground arith
  | inr ((w, r), found) ↦ ground (arith, length-digits_from s w r found)
]

length-signed_digits : (s w r : Text) → signed_digits s ≡ some (w, r) → length r ≤ length s
unfolding signed_digits
length-signed_digits [] w r h = cc
length-signed_digits (c ∷ s) w r h = elim (Option-cases (digits_from s)) [
  | inl n ↦ ground (arith, length-digits_from (c ∷ s) w r)
  | inr ((w', r'), found) ↦
      ground (arith, length-digits_from s w' r' found, length-digits_from (c ∷ s) w r)
]

length-exponent : (s : Text) → length (optional (exponent s) s).1 ≤ length s
unfolding exponent
length-exponent [] = ground arith
length-exponent (c ∷ s) = elim (Option-cases (signed_digits s)) [
  | inl n ↦ ground arith
  | inr ((w, r), found) ↦ ground (arith, length-signed_digits s w r found)
]

length-unsigned : (s w r : Text) → unsigned s ≡ some (w, r) → length r ≤ length s
unfolding unsigned
length-unsigned s w r h = elim (Option-cases (whole s)) [
  | inl n ↦ ground arith
  | inr ((x, s1), found) ↦
      let fs = optional (fraction s1) s1 in
      ground (arith, length-whole s x s1 found, length-fraction s1, length-exponent fs.1)
]

pub length-number_lexeme : (s w r : Text) → number_lexeme s ≡ some (w, r) → length r ≤ length s
unfolding number_lexeme
length-number_lexeme [] w r h = cc
length-number_lexeme (c ∷ s) w r h = elim (Option-cases (unsigned s)) [
  | inl n ↦ ground (arith, length-unsigned (c ∷ s) w r)
  | inr ((w', r'), found) ↦
      ground (arith, length-unsigned s w' r' found, length-unsigned (c ∷ s) w r)
]

length-string_scan : (b : Bool) (s w r : Text) → string_scan b s ≡ some (w, r) → length r ≤ length s
unfolding string_scan
length-string_scan true [] w r h = cc
length-string_scan false [] w r h = cc
length-string_scan true (c ∷ s) w r h = elim (Option-cases (string_scan false s)) [
  | inl n ↦ ground arith
  | inr ((w', r'), found) ↦ ground (arith, length-string_scan false s w' r' found)
]
length-string_scan false (c ∷ s) w r h = elim (Option-cases (string_scan (c == b'\\') s)) [
  | inl n ↦ ground arith
  | inr ((w', r'), found) ↦ ground (arith, length-string_scan (c == b'\\') s w' r' found)
]

pub length-string_lexeme : (s w r : Text) → string_lexeme s ≡ some (w, r) → length r ≤ length s
unfolding string_lexeme
length-string_lexeme [] w r h = cc
length-string_lexeme (c ∷ s) w r h = elim (Option-cases (string_scan false s)) [
  | inl n ↦ ground arith
  | inr ((w', r'), found) ↦ ground (arith, length-string_scan false s w' r' found)
]

pub length-str : (p s w r : Text) → str p s ≡ some (w, r) → length r ≤ length s
unfolding str
length-str [] s w r h = ground arith
length-str (p ∷ ps) [] w r h = cc
length-str (p ∷ ps) (c ∷ s) w r h = elim (Option-cases (str ps s)) [
  | inl n ↦ ground arith
  | inr ((w', r'), found) ↦ ground (arith, length-str ps s w' r' found)
]
