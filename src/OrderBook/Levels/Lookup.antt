-- ===== src/OrderBook/Levels/Lookup.antt =====
-- What a side of the book holds after the levels of a delta or of a snapshot.
use market_data_backend.Prelude.{
  String, List, [], ◌∷◌, Option, none, some, ◌≡◌, refl, ◌==◌, String_eq, if◌then◌else◌, arith,
}
use market_data_backend.Prelude.Map
use market_data_backend.Model.{PriceLevel}
use market_data_backend.OrderBook.Levels.{Side, is_zero_quantity, set_level, apply_levels}

-- The last level of a list that names the price.
abbrev pub last_level : String → List PriceLevel → Option PriceLevel
last_level price [] = none
last_level price (level ∷ levels) = elim (last_level price levels) [
  | some later ↦ some later
  | none ↦ if level.price == price then some level else none
]

-- What a level says of its price: the texts "0" and "0.0" remove it, any other text is its quantity.
abbrev pub meaning : PriceLevel → Option String
meaning level =
    if level.quantity == "0"
    then none
    else if level.quantity == "0.0"
    then none
    else some level.quantity

abbrev pub decided : Option PriceLevel → Option String → Option String
decided none old = old
decided (some level) old = meaning level

lookup-set_level :
    (price : String) (side : Side) (level : PriceLevel)
    → Map.lookup price (set_level side level)
      ≡ (if level.price == price then meaning level else Map.lookup price side)
unfolding set_level is_zero_quantity
lookup-set_level price side level = ground (
  arith,
  Map.lookup-insert price level.price level.quantity side,
  Map.lookup-delete price level.price side,
)

-- After a delta each price has the quantity of the last level that names it: none if that quantity
-- is the text "0" or "0.0", the text itself if it is any other (another spelling of zero, such as
-- "0.00", too), and what the side held before if no level names it.
pub lookup-apply_levels :
    (price : String) (side : Side) (levels : List PriceLevel)
    → Map.lookup price (apply_levels side levels)
      ≡ decided (last_level price levels) (Map.lookup price side)
unfolding apply_levels
lookup-apply_levels price side [] = refl
lookup-apply_levels price side (level ∷ levels) = ground (
  arith,
  lookup-set_level price side level,
  lookup-apply_levels price (set_level side level) levels,
)
