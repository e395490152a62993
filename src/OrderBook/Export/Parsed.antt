-- ===== src/OrderBook/Export/Parsed.antt =====
-- The levels of `exportLevels` before and after the sort: their prices, their order, and the side
-- of the book that they list.
use market_data_backend.Prelude.{
  eq_test_iff, String, Bool, List, [], ◌∷◌, none, some, ◌≡◌, refl, ◌∙◌, ap, arith, All, map,
  if◌then◌else◌, ◌==◌, String_eq,
}
use market_data_backend.Prelude.Map
use market_data_backend.Prelude.Sort.{insert_sorted, sort}
use market_data_backend.Model.{PriceLevel}
use market_data_backend.OrderBook.Levels.{Side}
use market_data_backend.OrderBook.Levels.Shape.{IsListed}
use market_data_backend.OrderBook.Levels.Load.{side_of}

abbrev pub entry : PriceLevel → String × String
entry level = (level.price, level.quantity)

abbrev pub parsed_side {ℓ} : {X : Type ℓ} → List (PriceLevel × X) → Side
parsed_side [] = []
parsed_side ((level, x) ∷ rest) = entry level ∷ parsed_side rest

pub side_of-map {ℓ} :
    {X : Type ℓ} (ls : List (PriceLevel × X)) → side_of (map (λ l. l.0) ls) ≡ parsed_side ls
side_of-map [] = refl
side_of-map ((level, x) ∷ rest) = ap (◌∷◌ (entry level)) (side_of-map rest)

-- The listed levels one by one, and as a side.
pub All-parsed_side {ℓ} :
    {X : Type ℓ} (ls : List (PriceLevel × X))
    → All (λ l. IsListed (entry l.0)) ls
    → All IsListed (parsed_side ls)
All-parsed_side [] h = tt
All-parsed_side (l ∷ ls) h = (h.0, All-parsed_side ls h.1)

pub parsed_side-All {ℓ} :
    {X : Type ℓ} (ls : List (PriceLevel × X))
    → All IsListed (parsed_side ls)
    → All (λ l. IsListed (entry l.0)) ls
parsed_side-All [] h = tt
parsed_side-All (l ∷ ls) h = (h.0, parsed_side-All ls h.1)

-- Sorting levels of distinct prices changes no lookup.
module _ {ℓ} {X : Type ℓ} (le : PriceLevel × X → PriceLevel × X → Bool) where
  lookup-insert_sorted :
      (p : String) (l : PriceLevel × X) (ls : List (PriceLevel × X))
      → Map.lookup l.0.price (parsed_side ls) ≡ none
      → Map.lookup p (parsed_side (insert_sorted le l ls))
        ≡ (if l.0.price == p then some l.0.quantity else Map.lookup p (parsed_side ls))
  unfolding insert_sorted Map.lookup
  lookup-insert_sorted p l [] h = refl
  lookup-insert_sorted p l (k ∷ ks) h = ground (
    arith,
    eq_test_iff l.0.price p,
    eq_test_iff k.0.price p,
    eq_test_iff k.0.price l.0.price,
    lookup-insert_sorted p l ks,
  )

  insert_sorted-Distinct :
      (l : PriceLevel × X) (ls : List (PriceLevel × X))
      → Map.lookup l.0.price (parsed_side ls) ≡ none
      → Map.Distinct (parsed_side ls)
      → Map.Distinct (parsed_side (insert_sorted le l ls))
  unfolding insert_sorted Map.lookup
  insert_sorted-Distinct l [] h d = (refl, tt)
  insert_sorted-Distinct l (k ∷ ks) h d = ground (
    arith,
    eq_test_iff k.0.price l.0.price,
    eq_test_iff l.0.price k.0.price,
    lookup-insert_sorted k.0.price l ks,
    insert_sorted-Distinct l ks,
  )

  pub lookup-sort :
      (p : String) (ls : List (PriceLevel × X))
      → Map.Distinct (parsed_side ls)
      → Map.lookup p (parsed_side (sort le ls)) ≡ Map.lookup p (parsed_side ls)
  unfolding sort Map.lookup
  lookup-sort p [] d = refl
  lookup-sort p (l ∷ ls) d =
      lookup-insert_sorted p l (sort le ls) (lookup-sort l.0.price ls d.1 ∙ d.0)
      ∙ ap (λ r. if l.0.price == p then some l.0.quantity else r) (lookup-sort p ls d.1)

  pub sort-Distinct :
      (ls : List (PriceLevel × X))
      → Map.Distinct (parsed_side ls)
      → Map.Distinct (parsed_side (sort le ls))
  unfolding sort
  sort-Distinct [] d = tt
  sort-Distinct (l ∷ ls) d =
      insert_sorted-Distinct l (sort le ls) (lookup-sort l.0.price ls d.1 ∙ d.0)
        (sort-Distinct ls d.1)
