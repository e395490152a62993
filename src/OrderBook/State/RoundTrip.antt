-- ===== src/OrderBook/State/RoundTrip.antt =====
-- A generated snapshot, applied as a reference snapshot, gives the same book.
use market_data_backend.Prelude.{
  String, true, List, [], none, some, ◌≡◌, refl, ◌∙◌, arith, String_eq,
}
use market_data_backend.Prelude.Map
use market_data_backend.Model.{Time, PriceLevel, OrderBookSnapshot}
use market_data_backend.Numeric.{BigFloat}
use market_data_backend.OrderBook.Levels.{Side, load_levels}
use market_data_backend.OrderBook.Levels.Load.{lookup-load_levels}
use market_data_backend.OrderBook.Export.{SortDir, desc, asc, export_levels, validate_bid_ask_order}
use market_data_backend.OrderBook.Export.Ordered.{IsListing, export_levels-IsListing}
use market_data_backend.OrderBook.State.{
  OrderBookState, generate_snapshot, load_snapshot, apply_snapshot,
}
use market_data_backend.OrderBook.State.Invariant.{IsValid, settle_empty}
use market_data_backend.OrderBook.State.Buffer.{apply_snapshot_valid}

-- Two books with the same levels and the same sequence.
pub record SameBook (s t : OrderBookState) : Type 0 where
  pub same_bids : (p : String) → Map.lookup p t.bids ≡ Map.lookup p s.bids
  pub same_asks : (p : String) → Map.lookup p t.asks ≡ Map.lookup p s.asks
  pub same_sequence : t.sequence ≡ s.sequence

lookup-loaded :
    (big : BigFloat) (dir : SortDir) (side : Side) (levels : List PriceLevel)
    → IsListing big dir side levels
    → (p : String) → Map.lookup p (load_levels [] levels) ≡ Map.lookup p side
lookup-loaded big dir side levels l p =
    lookup-load_levels p levels l.distinct l.listed ∙ l.same_levels p

generate_snapshot-parts :
    (big : BigFloat) (s : OrderBookState) (at : Time) (snap : OrderBookSnapshot)
    → s.ready ≡ true
    → generate_snapshot big s at ≡ some snap
    → (export_levels big s.bids desc ≡ some snap.bids)
      × (export_levels big s.asks asc ≡ some snap.asks)
      × (snap.sequence ≡ s.sequence)
unfolding generate_snapshot
generate_snapshot-parts big s at snap ready h = ground arith

-- The snapshot that a ready book generates passes the ordering check of `applySnapshot`, and a book
-- with nothing buffered that applies it becomes ready, without an error, with the same quantity at
-- each price and the same sequence.
pub apply_snapshot-generate_snapshot :
    (big : BigFloat) (s t : OrderBookState) (at : Time) (snap : OrderBookSnapshot)
    → IsValid s
    → s.ready ≡ true
    → t.pending ≡ []
    → generate_snapshot big s at ≡ some snap
    → ((apply_snapshot big t snap).1 ≡ none)
      × ((apply_snapshot big t snap).0.ready ≡ true)
      × SameBook s (apply_snapshot big t snap).0
unfolding load_snapshot validate_bid_ask_order
apply_snapshot-generate_snapshot big s t at snap v ready empty h =
    let (bids, asks, seq) = generate_snapshot-parts big s at snap ready h in
    let b = export_levels-IsListing big s.bids desc snap.bids v.book.bids_side bids in
    let a = export_levels-IsListing big s.asks asc snap.asks v.book.asks_side asks in
    let valid = apply_snapshot_valid big t snap (rw (b.ordered, a.ordered)) in
    rw (valid, settle_empty (load_snapshot t snap) empty)
      (
        refl,
        refl,
        record {
          same_bids = lookup-loaded big desc s.bids snap.bids b;
          same_asks = lookup-loaded big asc s.asks snap.asks a;
          same_sequence = seq;
        },
      )
