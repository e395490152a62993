-- ===== src/Decode/Decimal.antt =====
-- internal/runtime/decode.go: `decimalPattern` as an automaton, and the tests of decimal texts.
use Prim.Native.Char.{code}
use market_data_backend.Prelude.{
  ℕ, String, Bool, true, false, not, ◌&&◌, ◌||◌, leb, nat_eq, Option, none, some, if◌then◌else◌,
}
use market_data_backend.Prelude.Text.{trim_space}
use market_data_backend.Numeric.{BigFloat}

pub data Scan : Type 0 where
  start : Scan
  signed : Scan
  whole : Scan
  bare_point : Scan
  fraction : Scan
  exponent : Scan
  signed_exponent : Scan
  exponent_digits : Scan
  mismatch : Scan

abbrev is_digit : ℕ → Bool
is_digit c = leb 48 c && leb c 57

abbrev is_sign : ℕ → Bool
is_sign c = nat_eq c 43 || nat_eq c 45

abbrev is_exponent : ℕ → Bool
is_exponent c = nat_eq c 69 || nat_eq c 101

abbrev is_point : ℕ → Bool
is_point c = nat_eq c 46

unfoldable pub scan_char : Scan → ℕ → Scan
scan_char start c =
    if is_sign c
    then signed
    else if is_digit c
    then whole
    else if is_point c
    then bare_point
    else mismatch
scan_char signed c = if is_digit c then whole else if is_point c then bare_point else mismatch
scan_char whole c =
    if is_digit c
    then whole
    else if is_point c
    then fraction
    else if is_exponent c
    then exponent
    else mismatch
scan_char bare_point c = if is_digit c then fraction else mismatch
scan_char fraction c = if is_digit c then fraction else if is_exponent c then exponent else mismatch
scan_char exponent c =
    if is_sign c then signed_exponent else if is_digit c then exponent_digits else mismatch
scan_char signed_exponent c = if is_digit c then exponent_digits else mismatch
scan_char exponent_digits c = if is_digit c then exponent_digits else mismatch
scan_char mismatch c = mismatch

unfoldable pub scan : Scan → String → Scan
unfolding scan_char
scan at String.[] = at
scan at (String.◌∷◌ c s) = scan (scan_char at (code c)) s

abbrev accepts : Scan → Bool
accepts whole = true
accepts fraction = true
accepts exponent_digits = true
accepts _ = false

-- `decimalPattern.MatchString`.
unfoldable pub matches_decimal : String → Bool
unfolding scan
matches_decimal s = accepts (scan start s)

module _ (big : BigFloat) where
  open big use {Float, parse_float, leb_float, zero_float}

  abbrev pub is_above_zero : Option Float → Bool
  is_above_zero none = false
  is_above_zero (some v) = not (leb_float v zero_float)

  abbrev pub is_zero_or_above : Option Float → Bool
  is_zero_or_above none = false
  is_zero_or_above (some v) = leb_float zero_float v

  unfoldable pub valid_positive_numeric : String → Bool
  unfolding matches_decimal
  valid_positive_numeric s =
      matches_decimal (trim_space s) && is_above_zero (parse_float (trim_space s))

  unfoldable pub valid_non_negative_numeric : String → Bool
  unfolding matches_decimal
  valid_non_negative_numeric s =
      matches_decimal (trim_space s) && is_zero_or_above (parse_float (trim_space s))
