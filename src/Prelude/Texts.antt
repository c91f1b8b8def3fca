-- ===== src/Prelude/Texts.antt =====
-- Go strings as lists of bytes, with the functions of the `strings` package that the code uses.
pub mod Order
use Prim.Native.Nat.{ℕ, compare, Ordering, zero, suc}
use Prim.Native.Char.{code}
use Prim.Native.String.{String}
use mathlib.Core.Path.{◌≡◌, refl}
use mathlib.Core.Bool.{Bool, true, false, ◌&&◌, ◌||◌}
use mathlib.Core.List.{List, [], ◌∷◌, ◌++◌}
use native.Mathlib.Omega.{arith}
use scim_go.Prelude.Equality.{◌==◌, nat_eq, list_eq}

abbrev pub Text : Type 0
Text = List ℕ

-- The bytes of an ASCII literal.
abbrev pub bytes : String → Text
bytes String.[] = []
bytes (String.◌∷◌ c s) = code c ∷ bytes s

-- Go's `a < b` on strings: the order of the bytes.
abbrev pub text_lt : Text → Text → Bool
text_lt a [] = false
text_lt [] (y ∷ b) = true
text_lt (x ∷ a) (y ∷ b) = elim (compare x y) [
  | Ordering.lt ↦ true
  | Ordering.eq ↦ text_lt a b
  | Ordering.gt ↦ false
]

-- strings.HasPrefix s p
abbrev pub has_prefix : Text → Text → Bool
has_prefix s [] = true
has_prefix [] (y ∷ p) = false
has_prefix (x ∷ s) (y ∷ p) = x == y && has_prefix s p

-- strings.HasSuffix s p: some tail of s is p.
abbrev pub has_suffix : Text → Text → Bool
has_suffix [] p = [] == p
has_suffix (x ∷ s) p = (x ∷ s) == p || has_suffix s p

-- strings.Contains s p: some tail of s begins with p.
abbrev pub contains_text : Text → Text → Bool
contains_text [] p = has_prefix [] p
contains_text (x ∷ s) p = has_prefix (x ∷ s) p || contains_text s p
