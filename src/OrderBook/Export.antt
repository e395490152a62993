-- ===== src/OrderBook/Export.antt =====
-- internal/runtime/orderbook_state.go: `exportLevels` and `validateBidAskOrder`.
pub mod Parsed
pub mod Ordered
use Prim.Native.Nat.{Ordering}
use market_data_backend.Prelude.{
  ℕ, ◌+◌, String, Bool, true, false, not, List, [], ◌∷◌, Option, none, some, Result, ok, err,
  if◌then◌else◌, map, ◌>>=◌, ◌>>◌,
}
use mathlib.Core.Option
use market_data_backend.Prelude.Sort.{sort}
use market_data_backend.Numeric.{BigFloat, parse_price, compare_numeric}
use market_data_backend.Model.{PriceLevel}
use market_data_backend.OrderBook.Levels.{Side, is_zero_quantity}

pub data SortDir : Type 0 where
  desc asc : SortDir

pub data OrderError : Type 0 where
  bids_out_of_order : ℕ → OrderError
  asks_out_of_order : ℕ → OrderError
  nil_price : OrderError

-- Whether a price may not stand before the next one.
abbrev pub is_violation : SortDir → Ordering → Bool
is_violation desc Ordering.lt = true
is_violation asc Ordering.gt = true
is_violation _ _ = false

abbrev pub order_error : SortDir → ℕ → OrderError
order_error desc i = bids_out_of_order i
order_error asc i = asks_out_of_order i

module _ (big : BigFloat) where
  open big use {Float, leb_float}

  abbrev pub check_pair :
      SortDir → ℕ → Option Ordering → Result OrderError (Unit {0}) → Result OrderError (Unit {0})
  check_pair dir i none rest = err nil_price
  check_pair dir i (some o) rest = if is_violation dir o then err (order_error dir i) else rest

  -- The loop over one side from index `i`, with the price before it.
  unfoldable pub check_order : SortDir → ℕ → String → List PriceLevel → Result OrderError (Unit {0})
  check_order dir i price [] = ok tt
  check_order dir i price (level ∷ levels) =
      let rest = check_order dir (i + 1) level.price levels in
      check_pair dir i (compare_numeric big price level.price) rest

  unfoldable pub check_side : SortDir → List PriceLevel → Result OrderError (Unit {0})
  unfolding check_order
  check_side dir [] = ok tt
  check_side dir (level ∷ levels) = check_order dir 1 level.price levels

  -- `validateBidAskOrder`: bids descend and asks ascend.
  unfoldable pub validate_bid_ask_order :
      List PriceLevel → List PriceLevel → Result OrderError (Unit {0})
  unfolding check_side
  validate_bid_ask_order bids asks = do check_side desc bids; check_side asc asks

  -- The listed levels, each with its parsed price; `none` is the nil pointer of a failed parse.
  unfoldable pub parse_levels : Side → List (PriceLevel × Option Float)
  parse_levels [] = []
  parse_levels ((price, quantity) ∷ side) =
      let rest = parse_levels side in
      if is_zero_quantity quantity
      then rest
      else (record { price = price; quantity = quantity }, parse_price big price) ∷ rest

  unfoldable pub all_parsed : List (PriceLevel × Option Float) → Option (List (PriceLevel × Float))
  all_parsed [] = some []
  all_parsed ((level, none) ∷ rest) = none
  all_parsed ((level, some x) ∷ rest) = Option.map (◌∷◌ (level, x)) (all_parsed rest)

  -- The order of the comparator: may the first stand before the second?
  unfoldable pub in_order : SortDir → PriceLevel × Float → PriceLevel × Float → Bool
  in_order desc a b = leb_float b.1 a.1
  in_order asc a b = leb_float a.1 b.1

  -- `sort.Slice` on two levels or more calls `Cmp` on each price; a nil one panics.
  unfoldable pub sort_levels : SortDir → List (PriceLevel × Option Float) → Option (List PriceLevel)
  sort_levels dir [] = some []
  sort_levels dir ((level, x) ∷ []) = some (level ∷ [])
  sort_levels dir (a ∷ b ∷ rest) =
      Option.map (λ levels. map (λ l. l.0) (sort (in_order dir) levels)) (all_parsed (a ∷ b ∷ rest))

  unfoldable pub export_levels : Side → SortDir → Option (List PriceLevel)
  unfolding parse_levels all_parsed in_order sort_levels
  export_levels side dir = sort_levels dir (parse_levels side)
