-- ===== src/Etag/RoundTrip.antt =====
-- internal/etag: Weak and Parse together.
use scim_go.Prelude.{
  ℕ, zero, suc, ◌+◌, ◌-◌, ◌/◌, ◌%◌, ◌*◌, ◌^◌, ◌<◌, Text, [], ◌∷◌, ◌++◌, bytes, Bool, true, false,
  leb, some, none, ℤ, pos, negsuc, ◌==◌, list_eq, nat_eq, ◌≡◌, refl, arith, ap, drop, ◌∙◌, sym,
}
use scim_go.Etag.{
  digits, format_int, weak, read_digits, read_number, positive, parse_int, cut_prefix, cut_suffix,
  not_negative, parse, format_signed, negative,
}

minus_plus : (a d : ℕ) → a + d - a ≡ d
minus_plus a d = omega arith

read_digits_step :
    (acc d : ℕ) (rest : Text)
    → d < 10
    → read_digits acc ((b'0' + d) ∷ rest) ≡ read_digits (acc * 10 + d) rest
unfolding read_digits
read_digits_step acc d rest h = rw (minus_plus b'0' d) (ground arith)

read_digits-digits :
    (fuel n : ℕ) (rest : Text) → n < fuel → read_digits 0 (digits fuel n rest) ≡ read_digits n rest
unfolding digits
read_digits-digits zero n rest h = absurd (omega arith)
read_digits-digits (suc fuel) n rest h =
    let last : n / 10 * 10 + n % 10 ≡ n = omega arith in
    ground (
      arith,
      last,
      read_digits_step 0 (n % 10) rest,
      read_digits_step (n / 10) (n % 10) rest,
      read_digits-digits fuel (n / 10) ((b'0' + n % 10) ∷ rest),
    )

read_digits-format_int : (n : ℕ) → read_digits 0 (format_int n) ≡ some n
unfolding format_int read_digits
read_digits-format_int n = read_digits-digits (suc n) n [] (omega arith)

format_int-injective : (a b : ℕ) → format_int a ≡ format_int b → a ≡ b
format_int-injective a b h =
    let same : read_digits 0 (format_int a) ≡ read_digits 0 (format_int b) = ap (read_digits 0) h in
    cc (same, read_digits-format_int a, read_digits-format_int b)

-- The digits are not empty and begin with none of the signs.
begins_with_digit : Text → Bool
begins_with_digit [] = false
begins_with_digit (c ∷ cs) = leb b'0' c

digits_begin : (fuel n : ℕ) (rest : Text) → n < fuel → begins_with_digit (digits fuel n rest) ≡ true
unfolding digits begins_with_digit
digits_begin zero n rest h = absurd (omega arith)
digits_begin (suc fuel) n rest h =
    ground (arith, digits_begin fuel (n / 10) ((b'0' + n % 10) ∷ rest))

parse_unsigned : (s : Text) → begins_with_digit s ≡ true → parse_int s ≡ positive (read_digits 0 s)
unfolding parse_int read_number begins_with_digit
parse_unsigned [] h = ground arith
parse_unsigned (c ∷ cs) h = ground arith

longer : (c : ℕ) (s : Text) → ((c ∷ (s ++ bytes "\"")) == bytes "\"") ≡ false
longer c [] = ground arith
longer c (x ∷ s) = ground arith

cut_suffix-append : (s : Text) → cut_suffix (s ++ bytes "\"") (bytes "\"") ≡ (s, true)
unfolding cut_suffix
cut_suffix-append [] = ground arith
cut_suffix-append (c ∷ s) = rw (longer c s) (rw (cut_suffix-append s) refl)

-- Two times that differ have tags that differ.
pub weak-injective : (a b : ℕ) → weak (pos a) ≡ weak (pos b) → a ≡ b
unfolding weak format_signed
weak-injective a b h = format_int-injective a b (
    ap (λ p. p.0)
      (sym (cut_suffix-append (format_int a))
        ∙ ap (λ w. cut_suffix (drop 3 w) (bytes "\"")) h
        ∙ cut_suffix-append (format_int b)))

parse-weak_positive : (micros : ℕ) → micros < 2 ^ 63 → parse (weak (pos micros)) ≡ some micros
unfolding parse weak format_signed cut_prefix positive not_negative format_int
parse-weak_positive micros h = ground (
  arith,
  cut_suffix-append (format_int micros),
  parse_unsigned (format_int micros) (digits_begin (suc micros) micros [] (omega arith)),
  read_digits-format_int micros,
)

-- What has a minus sign and is not zero is no time.
negative_refused : (n : ℕ) → not_negative (negative (some (suc n))) ≡ none
unfolding negative not_negative
negative_refused n = ground arith

read_number-begin : (s : Text) → begins_with_digit s ≡ true → read_number s ≡ read_digits 0 s
unfolding read_number begins_with_digit
read_number-begin [] h = ground arith
read_number-begin (c ∷ cs) h = refl

parse_int-negative : (n : ℕ) → parse_int (b'-' ∷ format_int (suc n)) ≡ negative (some (suc n))
unfolding parse_int
parse_int-negative n =
    let begins : begins_with_digit (format_int (suc n)) ≡ true =
      unfold format_int in digits_begin (suc (suc n)) (suc n) [] (omega arith) in
    ground (arith, read_number-begin (format_int (suc n)) begins, read_digits-format_int (suc n))

parse-weak_negative : (n : ℕ) → parse (weak (negsuc n)) ≡ none
unfolding parse weak format_signed cut_prefix
parse-weak_negative n =
    ground (
      arith,
      cut_suffix-append (b'-' ∷ format_int (suc n)),
      parse_int-negative n,
      negative_refused n,
    )

-- Parse reads back the time that Weak wrote, if it is not before 1970 and fits an int64. It refuses the
-- tag that Weak writes for a time before 1970.
pub parse-weak :
    (micros : ℕ)
    → (micros < 2 ^ 63 → parse (weak (pos micros)) ≡ some micros)
      × (parse (weak (negsuc micros)) ≡ none)
parse-weak micros = (parse-weak_positive micros, parse-weak_negative micros)

-- A tag is never empty.
pub weak_nonempty : (micros : ℤ) → (weak micros == []) ≡ false
unfolding weak
weak_nonempty micros = ground arith
