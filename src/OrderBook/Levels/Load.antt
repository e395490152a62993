-- ===== src/OrderBook/Levels/Load.antt =====
-- Loading the levels of a snapshot that names no price twice and no quantity "0" or "0.0".
use market_data_backend.Prelude.{
  eq_test_iff, String, List, [], ◌∷◌, Option, none, some, ◌≡◌, refl, String_eq, arith, All,
}
use market_data_backend.Prelude.Map
use market_data_backend.Model.{PriceLevel}
use market_data_backend.OrderBook.Levels.{Side, is_zero_quantity, add_level, load_levels}
use market_data_backend.OrderBook.Levels.Shape.{IsListed}

-- A list of levels, read as a side of the book.
abbrev pub side_of : List PriceLevel → Side
side_of [] = []
side_of (level ∷ levels) = (level.price, level.quantity) ∷ side_of levels

abbrev or_old : Option String → Option String → Option String
or_old none old = old
or_old (some quantity) old = some quantity

lookup-load_levels_onto :
    (p : String) (side : Side) (levels : List PriceLevel)
    → Map.Distinct (side_of levels)
    → All IsListed (side_of levels)
    → Map.lookup p (load_levels side levels)
      ≡ or_old (Map.lookup p (side_of levels)) (Map.lookup p side)
unfolding load_levels add_level is_zero_quantity Map.lookup
lookup-load_levels_onto p side [] d h = refl
lookup-load_levels_onto p side (level ∷ levels) d h = ground (
  arith,
  eq_test_iff level.price p,
  Map.lookup-insert p level.price level.quantity side,
  lookup-load_levels_onto p (Map.insert level.price level.quantity side) levels,
)

-- Each price of the list is found with its quantity, and no other.
pub lookup-load_levels :
    (p : String) (levels : List PriceLevel)
    → Map.Distinct (side_of levels)
    → All IsListed (side_of levels)
    → Map.lookup p (load_levels [] levels) ≡ Map.lookup p (side_of levels)
unfolding Map.lookup
lookup-load_levels p levels d h = ground (arith, lookup-load_levels_onto p [] levels d h)
