-- ===== src/Runtime.antt =====
-- What the code calls of Go's standard library and of golang.org/x/text whose tables and formats are
-- not in the repository, as one record of functions. Every definition that uses it takes it as an
-- instance argument.
use scim_go.Prelude.{ℕ, Text, Bool, Option, Ordering, ℤ, ◌≡◌, [], ◌==◌, list_eq, nat_eq, swap}

pub record Runtime : Type 0 where
  -- Every rune replaced by the smallest of its orbit under unicode.SimpleFold.
  pub fold : Text → Text
  -- strings.ToLower
  pub to_lower : Text → Text
  -- strings.TrimSpace
  pub trim_space : Text → Text
  -- json.Number: Float64, as IEEE bits, and Int64
  pub parse_float : Text → Option ℕ
  pub parse_int : Text → Option ℤ
  -- float64(n), int64(f), f == math.Trunc(f), cmp.Compare on float64
  pub float_of_int : ℤ → ℕ
  pub int_of_float : ℕ → ℤ
  pub is_whole : ℕ → Bool
  pub float_compare : ℕ → ℕ → Ordering
  -- time.Parse with RFC 3339, and with the layout that has no zone
  pub parse_zoned : Text → Option ℤ
  pub parse_local : Text → Option ℤ
  -- base64.StdEncoding and RawStdEncoding accept the text.
  pub is_padded_base64 : Text → Bool
  pub is_raw_base64 : Text → Bool
  -- precis.Profile.String, case preserved where the flag is true
  pub precis : Bool → Text → Option Text
  -- bidirule.DirectionString(s) == bidi.RightToLeft, bidirule.ValidString(s)
  pub is_right_to_left : Text → Bool
  pub is_valid_bidi : Text → Bool
  -- uuid.Parse succeeds.
  pub is_uuid : Text → Bool
  -- Folding replaces runes one by one: the empty text alone folds to the empty text.
  pub fold-eq-nil : (s : Text) → fold s ≡ [] → s ≡ []
  pub fold-nil : fold [] ≡ []
  -- cmp.Compare is an order: swapping the arguments swaps the answer.
  pub float_compare_swap : (a b : ℕ) → float_compare a b ≡ swap (float_compare b a)

module _ ⦃R : Runtime⦄ where
  -- strings.EqualFold: two texts are equal under simple folding if their folded runes are.
  abbrev pub equal_fold : Text → Text → Bool
  equal_fold a b = R.fold a == R.fold b
