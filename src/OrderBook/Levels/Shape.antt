-- ===== src/OrderBook/Levels/Shape.antt =====
-- A side of the book is a map and holds no quantity that is spelled "0" or "0.0".
use market_data_backend.Prelude.{
  String, false, List, [], ◌∷◌, ◌≡◌, ◌==◌, String_eq, arith, All, Bool-cases, inl, inr,
}
use market_data_backend.Prelude.Map
use market_data_backend.Model.{PriceLevel}
use market_data_backend.OrderBook.Levels.{
  Side, is_zero_quantity, set_level, apply_levels, add_level, load_levels,
}

-- The quantity is neither of the two texts; other spellings of zero, such as "0.00", are listed.
abbrev pub IsListed : String × String → Type 0
IsListed (price, quantity) = ((quantity == "0") ≡ false) × ((quantity == "0.0") ≡ false)

pub record IsSide (side : Side) : Type 0 where
  pub distinct : Map.Distinct side
  pub listed : All IsListed side

listed_lem :
    (price quantity : String) → is_zero_quantity quantity ≡ false → IsListed (price, quantity)
unfolding is_zero_quantity
listed_lem price quantity h = ground arith

pub is_zero_quantity_listed :
    (price quantity : String) → IsListed (price, quantity) → is_zero_quantity quantity ≡ false
unfolding is_zero_quantity
is_zero_quantity_listed price quantity h = ground arith

delete-IsListed :
    (price : String) (side : Side) → All IsListed side → All IsListed (Map.delete price side)
unfolding Map.delete
delete-IsListed price [] h = tt
delete-IsListed price ((j, q) ∷ side) h = ground (arith, delete-IsListed price side)

insert-IsListed :
    (price quantity : String) (side : Side)
    → IsListed (price, quantity)
    → All IsListed side
    → All IsListed (Map.insert price quantity side)
unfolding Map.insert
insert-IsListed price quantity [] z h = (z, tt)
insert-IsListed price quantity ((j, q) ∷ side) z h =
    ground (arith, insert-IsListed price quantity side)

pub nil-IsSide : IsSide []
nil-IsSide = record { distinct = tt; listed = tt }

set_level-IsSide : (side : Side) (level : PriceLevel) → IsSide side → IsSide (set_level side level)
unfolding set_level
set_level-IsSide side level h = elim (Bool-cases (is_zero_quantity level.quantity)) [
  | inl zero_quantity ↦ rw zero_quantity (record {
    distinct = Map.delete-Distinct level.price side h.distinct;
    listed = delete-IsListed level.price side h.listed;
  })
  | inr kept ↦ rw kept (record {
    distinct = Map.insert-Distinct level.price level.quantity side h.distinct;
    listed =
        insert-IsListed level.price level.quantity side (listed_lem level.price level.quantity kept)
          h.listed;
  })
]

add_level-IsSide : (side : Side) (level : PriceLevel) → IsSide side → IsSide (add_level side level)
unfolding add_level
add_level-IsSide side level h = elim (Bool-cases (is_zero_quantity level.quantity)) [
  | inl zero_quantity ↦ rw zero_quantity h
  | inr kept ↦ rw kept (record {
    distinct = Map.insert-Distinct level.price level.quantity side h.distinct;
    listed =
        insert-IsListed level.price level.quantity side (listed_lem level.price level.quantity kept)
          h.listed;
  })
]

pub apply_levels-IsSide :
    (side : Side) (levels : List PriceLevel) → IsSide side → IsSide (apply_levels side levels)
unfolding apply_levels
apply_levels-IsSide side [] h = h
apply_levels-IsSide side (level ∷ levels) h =
    apply_levels-IsSide (set_level side level) levels (set_level-IsSide side level h)

pub load_levels-IsSide :
    (side : Side) (levels : List PriceLevel) → IsSide side → IsSide (load_levels side levels)
unfolding load_levels
load_levels-IsSide side [] h = h
load_levels-IsSide side (level ∷ levels) h =
    load_levels-IsSide (add_level side level) levels (add_level-IsSide side level h)
