-- ===== src/OrderBook/Priced/Books.antt =====
-- Every operation keeps the prices of the book and of its buffer.
use market_data_backend.Prelude.{
  String, Bool, true, false, List, [], ◌∷◌, ◌++◌, Option, none, some, Result, ok, err, subst, All,
  All-append, Bool-cases, Result-cases, inl, inr, if◌then◌else◌, length, leb, ltb,
}
use market_data_backend.Model.{Time, OrderBookDelta, OrderBookSnapshot}
use market_data_backend.Numeric.{BigFloat}
use market_data_backend.OrderBook.Continuity.{GapError, check_sequence_match}
use market_data_backend.OrderBook.Export.{validate_bid_ask_order, export_levels, desc, asc}
use market_data_backend.OrderBook.State.{
  BookError, pending_buffer_full, OrderBookState, new_order_book_state, reset, write_delta,
  apply_one, is_stale, apply_rest, drain_from, drain_pending, load_snapshot, after_drain, settle,
  apply_snapshot, applied_one, drained_then, apply_delta, reset_on_error, on_delta_applied,
  snapshot_of, generate_snapshot,
}
use market_data_backend.OrderBook.State.Invariant.{Call, snapshot, delta, clear, step, run}
use market_data_backend.OrderBook.Priced.Sides.{
  IsPriced, ArePriced, IsSome, apply_levels-IsPriced, load_levels-IsPriced, export_levels-IsSome,
}

module _ (big : BigFloat) where
  abbrev pub IsPricedDelta : OrderBookDelta → Type 0
  IsPricedDelta d = ArePriced big d.bids × ArePriced big d.asks

  -- The prices of both sides and of the buffered deltas are numbers.
  pub record IsPricedBook (s : OrderBookState) : Type 0 where
    pub bids : IsPriced big s.bids
    pub asks : IsPriced big s.asks
    pub buffered : All IsPricedDelta s.pending

  write_delta-IsPricedBook :
      (s : OrderBookState) (d : OrderBookDelta)
      → IsPricedBook s
      → IsPricedDelta d
      → IsPricedBook (write_delta s d)
  unfolding write_delta
  write_delta-IsPricedBook s d b p = record {
    bids = apply_levels-IsPriced big s.bids d.bids b.bids p.0;
    asks = apply_levels-IsPriced big s.asks d.asks b.asks p.1;
    buffered = b.buffered;
  }

  abbrev Kept : Result GapError OrderBookState → Type 0
  Kept (ok s) = IsPricedBook s
  Kept (err e) = Unit

  apply_one-Kept :
      (s : OrderBookState) (d : OrderBookDelta)
      → IsPricedBook s
      → IsPricedDelta d
      → Kept (apply_one s d)
  unfolding apply_one
  apply_one-Kept s d b p =
      elim (Result-cases (check_sequence_match s.last_update_id s.sequence d)) [
        | inl (u, e) ↦ rw (e, apply_one, Kept) (write_delta-IsPricedBook s d b p)
        | inr (u, e) ↦ rw (e, apply_one, Kept) tt
      ]

  apply_rest-IsPricedBook :
      (s : OrderBookState) (ds : List OrderBookDelta)
      → IsPricedBook s
      → All IsPricedDelta ds
      → IsPricedBook (apply_rest s ds).0
  unfolding apply_rest
  apply_rest-IsPricedBook s [] b p = b
  apply_rest-IsPricedBook s (d ∷ ds) b p = elim (Result-cases (apply_one s d)) [
    | inl (t, e) ↦
        rw (e, apply_rest)
          (apply_rest-IsPricedBook t ds (subst Kept e (apply_one-Kept s d b p.0)) p.1)
    | inr (t, e) ↦ rw (e, apply_rest) b
  ]

  drain_from-IsPricedBook :
      (s : OrderBookState) (ds : List OrderBookDelta)
      → IsPricedBook s
      → All IsPricedDelta ds
      → IsPricedBook (drain_from s ds).0
  unfolding drain_from
  drain_from-IsPricedBook s [] b p = b
  drain_from-IsPricedBook s (d ∷ ds) b p = elim (Bool-cases (is_stale s d)) [
    | inl stale ↦ rw (stale, drain_from) (drain_from-IsPricedBook s ds b p.1)
    | inr fresh ↦ rw (fresh, drain_from) (apply_rest-IsPricedBook s (d ∷ ds) b p)
  ]

  drain_pending-IsPricedBook :
      (s : OrderBookState) → IsPricedBook s → IsPricedBook (drain_pending s).0
  unfolding drain_pending
  drain_pending-IsPricedBook s b =
      drain_from-IsPricedBook (record s { pending = [] }) s.pending
        (record { bids = b.bids; asks = b.asks; buffered = tt }) b.buffered

  after_drain-IsPricedBook :
      (r : OrderBookState × Option GapError) → IsPricedBook r.0 → IsPricedBook (after_drain r).0
  after_drain-IsPricedBook (s, none) b = b
  after_drain-IsPricedBook (s, some e) b = record { bids = b.bids; asks = b.asks; buffered = tt }

  settle-IsPricedBook : (s : OrderBookState) → IsPricedBook s → IsPricedBook (settle s).0
  unfolding settle
  settle-IsPricedBook s b = elim (Bool-cases (ltb 0 (length s.pending))) [
    | inl waiting ↦
        rw waiting (after_drain-IsPricedBook (drain_pending s) (drain_pending-IsPricedBook s b))
    | inr nothing ↦ rw nothing b
  ]

  apply_snapshot-IsPricedBook :
      (s : OrderBookState) (snap : OrderBookSnapshot)
      → IsPricedBook s
      → ArePriced big snap.bids × ArePriced big snap.asks
      → IsPricedBook (apply_snapshot big s snap).0
  unfolding apply_snapshot load_snapshot
  apply_snapshot-IsPricedBook s snap b p =
      elim (Result-cases (validate_bid_ask_order big snap.bids snap.asks)) [
        | inl (u, e) ↦
            rw (e, apply_snapshot)
              (settle-IsPricedBook (load_snapshot s snap) (record {
                bids = load_levels-IsPriced big [] snap.bids tt p.0;
                asks = load_levels-IsPriced big [] snap.asks tt p.1;
                buffered = b.buffered;
              }))
        | inr (u, e) ↦ rw (e, apply_snapshot) b
      ]

  reset-IsPricedBook : (s : OrderBookState) → IsPricedBook (reset s)
  unfolding reset
  reset-IsPricedBook s = record { bids = tt; asks = tt; buffered = tt }

  applied_one-IsPricedBook :
      (s : OrderBookState) (r : Result GapError OrderBookState)
      → IsPricedBook s
      → Kept r
      → IsPricedBook (applied_one s r).0
  applied_one-IsPricedBook s (ok t) b k = k
  applied_one-IsPricedBook s (err e) b k = b

  drained_then-IsPricedBook :
      (r : OrderBookState × Option GapError) (d : OrderBookDelta)
      → IsPricedBook r.0
      → IsPricedDelta d
      → IsPricedBook (drained_then r d).0
  drained_then-IsPricedBook (s, none) d b p =
      applied_one-IsPricedBook s (apply_one s d) b (apply_one-Kept s d b p)
  drained_then-IsPricedBook (s, some e) d b p = b

  if-IsPricedBook :
      (b : Bool) (x y : OrderBookState × Result BookError Bool)
      → IsPricedBook x.0
      → IsPricedBook y.0
      → IsPricedBook (if b then x else y).0
  if-IsPricedBook true x y p q = p
  if-IsPricedBook false x y p q = q

  apply_delta-IsPricedBook :
      (s : OrderBookState) (d : OrderBookDelta)
      → IsPricedBook s
      → IsPricedDelta d
      → IsPricedBook (apply_delta s d).0
  unfolding apply_delta
  apply_delta-IsPricedBook s d b p =
      if-IsPricedBook s.ready _ _
        (if-IsPricedBook (ltb 0 (length s.pending)) (drained_then (drain_pending s) d)
          (applied_one s (apply_one s d))
          (drained_then-IsPricedBook (drain_pending s) d (drain_pending-IsPricedBook s b) p)
          (applied_one-IsPricedBook s (apply_one s d) b (apply_one-Kept s d b p)))
        (if-IsPricedBook (leb s.max_pending (length s.pending))
          (s, err (pending_buffer_full s.max_pending))
          (record s { pending = s.pending ++ d ∷ [] }, ok false) b
          (record {
            bids = b.bids;
            asks = b.asks;
            buffered = All-append IsPricedDelta s.pending (d ∷ []) b.buffered (p, tt);
          }))

  reset_on_error-IsPricedBook :
      (r : OrderBookState × Result BookError Bool)
      → IsPricedBook r.0
      → IsPricedBook (reset_on_error r)
  reset_on_error-IsPricedBook (s, ok applied) b = b
  reset_on_error-IsPricedBook (s, err e) b = reset-IsPricedBook s

  abbrev pub IsPricedCall : Call → Type 0
  IsPricedCall (snapshot snap) = ArePriced big snap.bids × ArePriced big snap.asks
  IsPricedCall (delta d) = IsPricedDelta d
  IsPricedCall clear = Unit

  run-IsPricedBook :
      (s : OrderBookState) (calls : List Call)
      → IsPricedBook s
      → All IsPricedCall calls
      → IsPricedBook (run big s calls)
  unfolding run step on_delta_applied
  run-IsPricedBook s [] b p = b
  run-IsPricedBook s (snapshot snap ∷ calls) b p =
      run-IsPricedBook (apply_snapshot big s snap).0 calls
        (apply_snapshot-IsPricedBook s snap b p.0) p.1
  run-IsPricedBook s (delta d ∷ calls) b p =
      run-IsPricedBook (reset_on_error (apply_delta s d)) calls
        (reset_on_error-IsPricedBook (apply_delta s d) (apply_delta-IsPricedBook s d b p.0)) p.1
  run-IsPricedBook s (clear ∷ calls) b p =
      run-IsPricedBook (reset s) calls (reset-IsPricedBook s) p.1

  snapshot_of-IsSome :
      (s : OrderBookState) (at : Time) (bids asks : Option _)
      → IsSome bids
      → IsSome asks
      → IsSome (snapshot_of s at bids asks)
  snapshot_of-IsSome s at none asks p q = p
  snapshot_of-IsSome s at (some bids) none p q = q
  snapshot_of-IsSome s at (some bids) (some asks) p q = tt

  -- From a new book, after every sequence of snapshots, deltas and resets whose prices are all
  -- numbers, a snapshot is generated: no price is a nil pointer in the sort.
  pub generate_snapshot-run :
      (group_id snap_input : String) (calls : List Call) (at : Time)
      → All IsPricedCall calls
      → IsSome (generate_snapshot big (run big (new_order_book_state group_id snap_input) calls) at)
  unfolding generate_snapshot new_order_book_state
  generate_snapshot-run group_id snap_input calls at p =
      let s = run big (new_order_book_state group_id snap_input) calls in
      let b =
        run-IsPricedBook (new_order_book_state group_id snap_input) calls
          (record { bids = tt; asks = tt; buffered = tt }) p in
      elim (Bool-cases s.ready) [
        | inl ready ↦ rw ready (
            snapshot_of-IsSome s at (export_levels big s.bids desc) (export_levels big s.asks asc)
              (export_levels-IsSome big s.bids desc b.bids)
              (export_levels-IsSome big s.asks asc b.asks))
        | inr waiting ↦ rw waiting tt
      ]
