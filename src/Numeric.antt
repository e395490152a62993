-- ===== src/Numeric.antt =====
-- The decimal texts of the program: `big.ParseFloat` with 256 bits and `Cmp`, and
-- `compareNumeric` of internal/runtime/decode.go. The big floats of Go's library are a parameter.
use Prim.Native.Nat.{Ordering}
use market_data_backend.Prelude.{String, Bool, true, Option, none, some, ◌≡◌, ◌⊎◌, if◌then◌else◌}
use market_data_backend.Prelude.Text.{trim_space}

-- `math/big`: a parse that may fail, and an order that is total, since a `big.Float` is no NaN.
pub record BigFloat : Type 1 where
  pub Float : Type 0
  pub zero_float : Float
  pub parse_float : String → Option Float
  pub leb_float : Float → Float → Bool
  pub leb_total : (x y : Float) → (leb_float x y ≡ true) ⊎ (leb_float y x ≡ true)
  pub leb_trans :
      (x y z : Float) → leb_float x y ≡ true → leb_float y z ≡ true → leb_float x z ≡ true

module _ (big : BigFloat) where
  open big use {Float, parse_float, leb_float}

  -- `x.Cmp(y)`: -1, 0 or 1.
  unfoldable pub cmp : Float → Float → Ordering
  cmp x y =
      if leb_float x y then (if leb_float y x then Ordering.eq else Ordering.lt) else Ordering.gt

  unfoldable pub parse_price : String → Option Float
  parse_price price = parse_float (trim_space price)

  unfoldable pub cmp_parsed : Option Float → Option Float → Option Ordering
  unfolding cmp
  cmp_parsed (some x) (some y) = some (cmp x y)
  cmp_parsed _ _ = none

  -- `none` is the panic of `Cmp` on the nil pointer that a failed parse returns.
  unfoldable pub compare_numeric : String → String → Option Ordering
  unfolding cmp_parsed parse_price
  compare_numeric a b = cmp_parsed (parse_price a) (parse_price b)
