-- ===== src/Etag.antt =====
-- internal/etag: weak entity tags. A time is its microseconds since the epoch, which is what the tag
-- keeps, and is negative before 1970. strconv.FormatInt writes the decimal digits, after a minus sign
-- for a negative number.
use scim_go.Prelude.{
  ℕ, zero, suc, ◌+◌, ◌-◌, ◌/◌, ◌%◌, ◌*◌, ◌^◌, ◌<◌, ◌≤◌, Text, [], ◌∷◌, ◌++◌, bytes, Bool, true,
  false, ◌&&◌, leb, ltb, Option, none, some, if◌then◌else◌, ℤ, pos, negsuc, ◌==◌, list_eq, nat_eq,
  has_prefix, drop, length,
}
pub mod RoundTrip

-- The digits of a number, before `rest`. The fuel is more than the number.
unfoldable pub digits : ℕ → ℕ → Text → Text
digits zero n rest = rest
digits (suc fuel) n rest =
    let more = digits fuel (n / 10) ((b'0' + n % 10) ∷ rest) in
    if ltb n 10 then (b'0' + n % 10) ∷ rest else more

-- strconv.FormatInt(n, 10), of a number that is not negative, and of any
unfoldable pub format_int : ℕ → Text
format_int n = digits (suc n) n []

unfoldable pub format_signed : ℤ → Text
format_signed (pos n) = format_int n
format_signed (negsuc n) = b'-' ∷ format_int (suc n)

-- Weak
unfoldable pub weak : ℤ → Text
weak micros = bytes "W/\"" ++ (format_signed micros ++ bytes "\"")

-- The number whose digits follow those of `acc`.
unfoldable pub read_digits : ℕ → Text → Option ℕ
read_digits acc [] = some acc
read_digits acc (c ∷ cs) =
    let rest = read_digits (acc * 10 + (c - b'0')) cs in
    if leb b'0' c && leb c b'9' then rest else none

unfoldable pub read_number : Text → Option ℕ
read_number [] = none
read_number (c ∷ cs) = read_digits 0 (c ∷ cs)

-- a number with the sign, in the range of int64
unfoldable pub positive : Option ℕ → Option ℤ
positive none = none
positive (some n) = if ltb n (2 ^ 63) then some (pos n) else none

unfoldable pub negative : Option ℕ → Option ℤ
negative none = none
negative (some zero) = some (pos 0)
negative (some (suc n)) = if ltb n (2 ^ 63) then some (negsuc n) else none

-- strconv.ParseInt(s, 10, 64)
unfoldable pub parse_int : Text → Option ℤ
parse_int [] = none
parse_int (c ∷ cs) =
    if c == b'-'
    then negative (read_number cs)
    else if c == b'+'
    then positive (read_number cs)
    else positive (read_number (c ∷ cs))

-- strings.CutPrefix
unfoldable pub cut_prefix : Text → Text → Text × Bool
cut_prefix s p = if has_prefix s p then (drop (length p) s, true) else (s, false)

-- strings.CutSuffix
unfoldable pub cut_suffix : Text → Text → Text × Bool
cut_suffix [] p = ([], [] == p)
cut_suffix (c ∷ s) p =
    let (kept, found) = cut_suffix s p in if (c ∷ s) == p then ([], true) else (c ∷ kept, found)

unfoldable pub not_negative : Option ℤ → Option ℕ
not_negative none = none
not_negative (some (pos n)) = some n
not_negative (some (negsuc n)) = none

-- Parse
unfoldable pub parse : Text → Option ℕ
unfolding cut_prefix cut_suffix parse_int not_negative
parse version =
    let (rest, found) = cut_prefix version (bytes "W/\"") in
    let (number, closed) = cut_suffix rest (bytes "\"") in
    if found && closed then not_negative (parse_int number) else none
