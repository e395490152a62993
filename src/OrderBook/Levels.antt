-- ===== src/OrderBook/Levels.antt =====
-- internal/runtime/orderbook_state.go: one side of the book, a map from price to quantity.
pub mod Lookup
pub mod Shape
pub mod Load
use market_data_backend.Prelude.{String, Bool, true, List, [], ◌∷◌, ◌==◌, String_eq, if◌then◌else◌}
use market_data_backend.Prelude.Map
use market_data_backend.Model.{PriceLevel}

abbrev pub Side : Type 0
Side = List (String × String)

-- The spellings that stand for a removed level.
unfoldable pub is_zero_quantity : String → Bool
is_zero_quantity quantity = if quantity == "0" then true else quantity == "0.0"

-- One level of a delta: quantity 0 removes the price.
unfoldable pub set_level : Side → PriceLevel → Side
set_level side level =
    if is_zero_quantity level.quantity
    then Map.delete level.price side
    else Map.insert level.price level.quantity side

-- The loop over the levels of a delta.
unfoldable pub apply_levels : Side → List PriceLevel → Side
apply_levels side [] = side
apply_levels side (level ∷ levels) = apply_levels (set_level side level) levels

-- One level of a reference snapshot: quantity 0 is skipped.
unfoldable pub add_level : Side → PriceLevel → Side
add_level side level =
    if is_zero_quantity level.quantity then side else Map.insert level.price level.quantity side

-- The loop over the levels of a reference snapshot.
unfoldable pub load_levels : Side → List PriceLevel → Side
load_levels side [] = side
load_levels side (level ∷ levels) = load_levels (add_level side level) levels
