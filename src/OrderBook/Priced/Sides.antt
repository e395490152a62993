-- ===== src/OrderBook/Priced/Sides.antt =====
-- Sides of the book whose prices are all numbers, and their export.
use market_data_backend.Prelude.{
  String, List, [], ◌∷◌, Option, none, some, ◌≡◌, String_eq, arith, All, map, Bool-cases, inl, inr,
}
use mathlib.Core.Option
use market_data_backend.Prelude.Map
use market_data_backend.Prelude.Sort.{sort}
use market_data_backend.Numeric.{BigFloat, parse_price}
use market_data_backend.Model.{PriceLevel}
use market_data_backend.OrderBook.Levels.{
  Side, is_zero_quantity, set_level, apply_levels, add_level, load_levels,
}
use market_data_backend.OrderBook.Export.{
  SortDir, parse_levels, all_parsed, in_order, sort_levels, export_levels,
}

abbrev pub IsSome {ℓ} : {A : Type ℓ} → Option A → Type 0
IsSome none = ⊥
IsSome (some x) = Unit

module _ (big : BigFloat) where
  open big use {Float}

  abbrev pub IsPrice : String → Type 0
  IsPrice price = (v : Float) × (parse_price big price ≡ some v)

  abbrev pub IsPriced : Side → Type 0
  IsPriced side = All (λ entry. IsPrice entry.0) side

  abbrev pub ArePriced : List PriceLevel → Type 0
  ArePriced levels = All (λ level. IsPrice level.price) levels

  delete-IsPriced :
      (price : String) (side : Side) → IsPriced side → IsPriced (Map.delete price side)
  unfolding Map.delete
  delete-IsPriced price [] h = tt
  delete-IsPriced price ((j, q) ∷ side) h = ground (arith, delete-IsPriced price side)

  insert-IsPriced :
      (price quantity : String) (side : Side)
      → IsPrice price
      → IsPriced side
      → IsPriced (Map.insert price quantity side)
  unfolding Map.insert
  insert-IsPriced price quantity [] p h = (p, tt)
  insert-IsPriced price quantity ((j, q) ∷ side) p h =
      ground (arith, insert-IsPriced price quantity side p)

  set_level-IsPriced :
      (side : Side) (level : PriceLevel)
      → IsPriced side
      → IsPrice level.price
      → IsPriced (set_level side level)
  unfolding set_level
  set_level-IsPriced side level h p = elim (Bool-cases (is_zero_quantity level.quantity)) [
    | inl zero_quantity ↦ rw zero_quantity (delete-IsPriced level.price side h)
    | inr kept ↦ rw kept (insert-IsPriced level.price level.quantity side p h)
  ]

  add_level-IsPriced :
      (side : Side) (level : PriceLevel)
      → IsPriced side
      → IsPrice level.price
      → IsPriced (add_level side level)
  unfolding add_level
  add_level-IsPriced side level h p = elim (Bool-cases (is_zero_quantity level.quantity)) [
    | inl zero_quantity ↦ rw zero_quantity h
    | inr kept ↦ rw kept (insert-IsPriced level.price level.quantity side p h)
  ]

  pub apply_levels-IsPriced :
      (side : Side) (levels : List PriceLevel)
      → IsPriced side
      → ArePriced levels
      → IsPriced (apply_levels side levels)
  unfolding apply_levels
  apply_levels-IsPriced side [] h a = h
  apply_levels-IsPriced side (level ∷ levels) h a =
      apply_levels-IsPriced (set_level side level) levels (set_level-IsPriced side level h a.0) a.1

  pub load_levels-IsPriced :
      (side : Side) (levels : List PriceLevel)
      → IsPriced side
      → ArePriced levels
      → IsPriced (load_levels side levels)
  unfolding load_levels
  load_levels-IsPriced side [] h a = h
  load_levels-IsPriced side (level ∷ levels) h a =
      load_levels-IsPriced (add_level side level) levels (add_level-IsPriced side level h a.0) a.1

  abbrev AllSome : List (PriceLevel × Option Float) → Type 0
  AllSome levels = All (λ l. (v : Float) × (l.1 ≡ some v)) levels

  parse_levels-AllSome : (side : Side) → IsPriced side → AllSome (parse_levels big side)
  unfolding parse_levels
  parse_levels-AllSome [] h = tt
  parse_levels-AllSome ((price, quantity) ∷ side) h =
      elim (Bool-cases (is_zero_quantity quantity)) [
        | inl zero_quantity ↦ rw zero_quantity (parse_levels-AllSome side h.1)
        | inr kept ↦ rw kept (h.0, parse_levels-AllSome side h.1)
      ]

  IsSome-map {ℓ κ} :
      {A : Type ℓ} {B : Type κ} (f : A → B) (o : Option A) → IsSome o → IsSome (Option.map f o)
  IsSome-map f none h = h
  IsSome-map f (some x) h = tt

  all_parsed-IsSome :
      (levels : List (PriceLevel × Option Float)) → AllSome levels → IsSome (all_parsed big levels)
  unfolding all_parsed
  all_parsed-IsSome [] h = tt
  all_parsed-IsSome ((level, none) ∷ rest) h = absurd (cc (h.0.1))
  all_parsed-IsSome ((level, some x) ∷ rest) h =
      IsSome-map (◌∷◌ (level, x)) (all_parsed big rest) (all_parsed-IsSome rest h.1)

  sort_levels-IsSome :
      (dir : SortDir) (levels : List (PriceLevel × Option Float))
      → AllSome levels
      → IsSome (sort_levels big dir levels)
  unfolding sort_levels
  sort_levels-IsSome dir [] h = tt
  sort_levels-IsSome dir ((level, x) ∷ []) h = tt
  sort_levels-IsSome dir (a ∷ b ∷ rest) h =
      IsSome-map (λ levels. map (λ l. l.0) (sort (in_order big dir) levels))
        (all_parsed big (a ∷ b ∷ rest)) (all_parsed-IsSome (a ∷ b ∷ rest) h)

  pub export_levels-IsSome :
      (side : Side) (dir : SortDir) → IsPriced side → IsSome (export_levels big side dir)
  unfolding export_levels
  export_levels-IsSome side dir h =
      sort_levels-IsSome dir (parse_levels big side) (parse_levels-AllSome side h)
