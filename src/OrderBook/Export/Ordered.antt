-- ===== src/OrderBook/Export/Ordered.antt =====
-- Sorted levels pass the check that a reference snapshot has to pass.
use mathlib.Core.Option.{some-injective}
use market_data_backend.Prelude.{
  ℕ, ◌+◌, String, true, List, [], ◌∷◌, Option, none, some, Result, ok, ◌≡◌, refl, ◌∙◌, ap, sym,
  subst, arith, Bool-cases, Option-cases, inl, inr, All, map, ◌⊎◌, String_eq,
}
use market_data_backend.Prelude.Map
use market_data_backend.Prelude.Sort.{sort}
use market_data_backend.Prelude.Sort.Laws.{IsSorted, All-sort, sort-IsSorted}
use market_data_backend.Numeric.{BigFloat, parse_price, compare_numeric}
use market_data_backend.Model.{PriceLevel}
use market_data_backend.OrderBook.Levels.{Side, is_zero_quantity}
use market_data_backend.OrderBook.Levels.Shape.{IsSide, IsListed, is_zero_quantity_listed}
use market_data_backend.OrderBook.Levels.Load.{side_of}
use market_data_backend.OrderBook.Export.{
  SortDir, desc, asc, check_order, check_side, check_pair, parse_levels, all_parsed, in_order,
  sort_levels, export_levels,
}
use market_data_backend.OrderBook.Export.Parsed.{
  entry, parsed_side, side_of-map, All-parsed_side, parsed_side-All, lookup-sort, sort-Distinct,
}

-- With every quantity listed, `parse_levels` keeps the whole side.
pub parse_levels-side :
    (big : BigFloat) (side : Side) → All IsListed side → parsed_side (parse_levels big side) ≡ side
unfolding parse_levels
parse_levels-side big [] h = refl
parse_levels-side big ((price, quantity) ∷ side) h =
    rw (is_zero_quantity_listed price quantity h.0)
      (ap (◌∷◌ (price, quantity)) (parse_levels-side big side h.1))

module _ (big : BigFloat) where
  open big use {Float, leb_float, leb_total, leb_trans}

  in_order_total :
      (dir : SortDir) (a b : PriceLevel × Float)
      → (in_order big dir a b ≡ true) ⊎ (in_order big dir b a ≡ true)
  unfolding in_order
  in_order_total desc a b = leb_total b.1 a.1
  in_order_total asc a b = leb_total a.1 b.1

  in_order_trans :
      (dir : SortDir) (a b c : PriceLevel × Float)
      → in_order big dir a b ≡ true
      → in_order big dir b c ≡ true
      → in_order big dir a c ≡ true
  unfolding in_order
  in_order_trans desc a b c p q = leb_trans c.1 b.1 a.1 q p
  in_order_trans asc a b c p q = leb_trans a.1 b.1 c.1 p q

  abbrev pub IsParsed : PriceLevel × Float → Type 0
  IsParsed l = parse_price big l.0.price ≡ some l.1

  abbrev pub IsRead : PriceLevel × Option Float → Type 0
  IsRead l = parse_price big l.0.price ≡ l.1

  parse_levels-IsRead : (side : Side) → All IsRead (parse_levels big side)
  unfolding parse_levels
  parse_levels-IsRead [] = tt
  parse_levels-IsRead ((price, quantity) ∷ side) = elim (Bool-cases (is_zero_quantity quantity)) [
    | inl skipped ↦ rw skipped (parse_levels-IsRead side)
    | inr listed ↦ rw listed (refl, parse_levels-IsRead side)
  ]

  all_parsed-IsParsed :
      (ls : List (PriceLevel × Option Float)) (ps : List (PriceLevel × Float))
      → all_parsed big ls ≡ some ps
      → All IsRead ls
      → All IsParsed ps × (parsed_side ps ≡ parsed_side ls)
  unfolding all_parsed
  all_parsed-IsParsed [] ps h r = rw (← some-injective [] ps h) (tt, refl)
  all_parsed-IsParsed ((level, none) ∷ ls) ps h r = absurd (cc h)
  all_parsed-IsParsed ((level, some x) ∷ ls) ps h r = elim (Option-cases (all_parsed big ls)) [
    | inl failed ↦ absurd (cc (rw failed at h))
    | inr (qs, parsed) ↦
        let (each, same) = all_parsed-IsParsed ls qs parsed r.1 in
        rw (← some-injective ((level, x) ∷ qs) ps (rw parsed at h))
          ((r.0, each), ap (◌∷◌ (level.price, level.quantity)) same)
  ]

  check_pair-ok :
      (dir : SortDir) (i : ℕ) (a b : PriceLevel × Float) (rest : Result _ (Unit {0}))
      → IsParsed a
      → IsParsed b
      → in_order big dir a b ≡ true
      → check_pair big dir i (compare_numeric big a.0.price b.0.price) rest ≡ rest
  unfolding compare_numeric in_order
  check_pair-ok desc i a b rest p q h = rw (p, q) (ground arith)
  check_pair-ok asc i a b rest p q h = rw (p, q) (ground arith)

  check_order-ok :
      (dir : SortDir) (i : ℕ) (a : PriceLevel × Float) (ls : List (PriceLevel × Float))
      → IsParsed a
      → All IsParsed ls
      → IsSorted (in_order big dir) (a ∷ ls)
      → check_order big dir i a.0.price (map (λ l. l.0) ls) ≡ ok tt
  unfolding check_order
  check_order-ok dir i a [] p ps s = refl
  check_order-ok dir i a (b ∷ ls) p ps s =
      check_pair-ok dir i a b _ p ps.0 s.0.0 ∙ check_order-ok dir (i + 1) b ls ps.0 ps.1 s.1

  -- Parsed levels in order pass the check of their side.
  check_side-ok :
      (dir : SortDir) (ls : List (PriceLevel × Float))
      → All IsParsed ls
      → IsSorted (in_order big dir) ls
      → check_side big dir (map (λ l. l.0) ls) ≡ ok tt
  unfolding check_side
  check_side-ok dir [] ps s = refl
  check_side-ok dir (a ∷ ls) ps s = check_order-ok dir 1 a ls ps.0 ps.1 s

  -- The listing of one side, when it does not panic: it passes the check of `applySnapshot`, and
  -- read as a side it holds each price of the book with its quantity.
  pub record IsListing (dir : SortDir) (side : Side) (levels : List PriceLevel) : Type 0 where
    pub ordered : check_side big dir levels ≡ ok tt
    pub distinct : Map.Distinct (side_of levels)
    pub listed : All IsListed (side_of levels)
    pub same_levels : (p : String) → Map.lookup p (side_of levels) ≡ Map.lookup p side

  pub sort_levels-IsListing :
      (dir : SortDir) (ls : List (PriceLevel × Option Float)) (levels : List PriceLevel)
      → All IsRead ls
      → Map.Distinct (parsed_side ls)
      → All IsListed (parsed_side ls)
      → sort_levels big dir ls ≡ some levels
      → IsListing dir (parsed_side ls) levels
  unfolding sort_levels check_side check_order
  sort_levels-IsListing dir [] levels r d z h =
      rw (← some-injective [] levels h)
        (record { ordered = refl; distinct = tt; listed = tt; same_levels = λ p. refl })
  sort_levels-IsListing dir ((l, x) ∷ []) levels r d z h =
      rw (← some-injective (l ∷ []) levels h)
        (record { ordered = refl; distinct = d; listed = z; same_levels = λ p. refl })
  sort_levels-IsListing dir (a ∷ b ∷ ls) levels r d z h =
      elim (Option-cases (all_parsed big (a ∷ b ∷ ls))) [
        | inl failed ↦ absurd (cc (rw failed at h))
        | inr (ps, parsed) ↦
            let (each, same) = all_parsed-IsParsed (a ∷ b ∷ ls) ps parsed r in
            let le = in_order big dir in
            let sorted = sort-IsSorted le (in_order_total dir) (in_order_trans dir) ps in
            let d' = subst Map.Distinct (sym same) d in
            rw (← some-injective (map (λ l. l.0) (sort le ps)) levels (rw parsed at h)) (record {
              ordered = check_side-ok dir (sort le ps) (All-sort le IsParsed ps each) sorted;
              distinct = rw side_of-map (sort-Distinct le ps d');
              listed = rw side_of-map (
                  All-parsed_side (sort le ps) (
                    All-sort le (λ l. IsListed (entry l.0)) ps
                      (parsed_side-All ps (subst (All IsListed) (sym same) z))));
              same_levels = λ p. rw side_of-map (lookup-sort le p ps d' ∙ ap (Map.lookup p) same);
            })
      ]

  pub export_levels-IsListing :
      (side : Side) (dir : SortDir) (levels : List PriceLevel)
      → IsSide side
      → export_levels big side dir ≡ some levels
      → IsListing dir side levels
  unfolding export_levels
  export_levels-IsListing side dir levels v h =
      let whole = parse_levels-side big side v.listed in
      subst (λ m. IsListing dir m levels) whole
        (sort_levels-IsListing dir (parse_levels big side) levels (parse_levels-IsRead side)
          (subst Map.Distinct (sym whole) v.distinct) (subst (All IsListed) (sym whole) v.listed) h)
