-- ===== src/OrderBook/State/Buffer.antt =====
-- Deltas that arrive before the reference snapshot.
use market_data_backend.Prelude.{
  true, List, [], ◌∷◌, Option, none, some, ok, err, ◌≡◌, refl, ◌∙◌, ap, sym, Bool-cases,
  Result-cases, List-cases, inl, inr, if◌then◌else◌,
}
use market_data_backend.Model.{OrderBookDelta, OrderBookSnapshot}
use market_data_backend.Numeric.{BigFloat}
use market_data_backend.OrderBook.Continuity.{GapError}
use market_data_backend.OrderBook.Export.{OrderError, validate_bid_ask_order}
use market_data_backend.OrderBook.State.{
  OrderBookState, write_delta, apply_one, is_stale, apply_rest, drain_from, drain_pending,
  load_snapshot, settle, apply_snapshot, on_delta_applied, after_drain, snapshot_ordering,
}
use market_data_backend.OrderBook.State.Drain.{write_delta-Follows, apply_one-cases}
use market_data_backend.OrderBook.State.Invariant.{apply_delta_ready, settle_empty}
use market_data_backend.OrderBook.State.Sequence.{deliver}

-- The buffered deltas from the first one on that is ahead of the book.
unfoldable pub drop_stale : OrderBookState → List OrderBookDelta → List OrderBookDelta
drop_stale s [] = []
drop_stale s (d ∷ ds) = let rest = drop_stale s ds in if is_stale s d then rest else d ∷ ds

drain_from-drop_stale :
    (s : OrderBookState) (ds : List OrderBookDelta)
    → drain_from s ds ≡ apply_rest s (drop_stale s ds)
unfolding drain_from apply_rest drop_stale
drain_from-drop_stale s [] = refl
drain_from-drop_stale s (d ∷ ds) = elim (Bool-cases (is_stale s d)) [
  | inl stale ↦ rw (stale, drain_from) (drain_from-drop_stale s ds)
  | inr ahead ↦ rw (ahead, drain_from)
]

on_delta_applied_written :
    (s : OrderBookState) (d : OrderBookDelta)
    → s.ready ≡ true
    → s.pending ≡ []
    → apply_one s d ≡ ok (write_delta s d)
    → on_delta_applied s d ≡ write_delta s d
unfolding on_delta_applied
on_delta_applied_written s d ready empty written = rw (apply_delta_ready s d ready empty, written)

-- Deltas that the second loop of `drainPending` takes are those that a ready book takes one by one.
apply_rest-deliver :
    (s t : OrderBookState) (ds : List OrderBookDelta)
    → s.ready ≡ true
    → s.pending ≡ []
    → apply_rest s ds ≡ (t, none)
    → deliver s ds ≡ t
unfolding apply_rest deliver
apply_rest-deliver s t [] ready empty h = ap (λ r. r.0) h
apply_rest-deliver s t (d ∷ ds) ready empty h = elim (apply_one-cases s d) [
  | inl (written, _) ↦
      let f = write_delta-Follows s d in
      rw (on_delta_applied_written s d ready empty written) (
        apply_rest-deliver (write_delta s d) t ds (f.same_ready ∙ ready) (f.same_pending ∙ empty)
          (rw (written, apply_rest) at h))
  | inr (e, gap, _) ↦ absurd (cc (ap (λ r. r.1) (rw (gap, apply_rest) at h)))
]

after_drain-none :
    (r : OrderBookState × Option GapError) (t : OrderBookState)
    → after_drain r ≡ (t, none)
    → r ≡ (t, none)
after_drain-none (s, none) t h = cc
after_drain-none (s, some e) t h = absurd (cc (ap (λ r. r.1) h))

pub apply_snapshot_valid :
    (big : BigFloat) (s : OrderBookState) (snap : OrderBookSnapshot)
    → validate_bid_ask_order big snap.bids snap.asks ≡ ok tt
    → apply_snapshot big s snap ≡ settle (load_snapshot s snap)
unfolding apply_snapshot
apply_snapshot_valid big s snap valid = rw (valid, apply_snapshot)

pub apply_snapshot_invalid :
    (big : BigFloat) (s : OrderBookState) (snap : OrderBookSnapshot) {e : OrderError}
    → validate_bid_ask_order big snap.bids snap.asks ≡ err e
    → apply_snapshot big s snap ≡ (s, some (snapshot_ordering e))
unfolding apply_snapshot
apply_snapshot_invalid big s snap invalid = rw (invalid, apply_snapshot)

settle-deliver :
    (s t : OrderBookState)
    → s.ready ≡ true
    → settle s ≡ (t, none)
    → let empty = record s { pending = [] } in deliver empty (drop_stale empty s.pending) ≡ t
unfolding settle drain_pending drop_stale deliver
settle-deliver s t ready h = elim (List-cases s.pending) [
  | inl none_buffered ↦
      let same : record s { pending = [] } ≡ s = λ i. record s { pending = sym none_buffered i } in
      let unchanged : s ≡ t = ap (λ r. r.0) (sym (settle_empty s none_buffered) ∙ h) in
      simp (none_buffered, drop_stale, deliver) (same ∙ unchanged)
  | inr some_buffered ↦
      let drained = after_drain-none (drain_pending s) t (rw (some_buffered, settle) at h) in
      let empty = record s { pending = [] } in
      apply_rest-deliver empty t (drop_stale empty s.pending) ready refl
        (rw (← drain_from-drop_stale empty s.pending) drained)
]

-- Deltas that were buffered before a reference snapshot leave the same book as if the snapshot had
-- come first and the deltas after it, those left out that are not ahead of the snapshot; this
-- holds whenever the snapshot is applied without an error.
pub apply_snapshot-deliver :
    (big : BigFloat) (s t : OrderBookState) (snap : OrderBookSnapshot)
    → apply_snapshot big s snap ≡ (t, none)
    → let first = (apply_snapshot big (record s { pending = [] }) snap).0 in
      deliver first (drop_stale first s.pending) ≡ t
unfolding load_snapshot
apply_snapshot-deliver big s t snap h =
    elim (Result-cases (validate_bid_ask_order big snap.bids snap.asks)) [
      | inl (_, valid) ↦
          let settled = rw (apply_snapshot_valid big s snap valid) at h in
          rw
            (
              apply_snapshot_valid big (record s { pending = [] }) snap valid,
              settle_empty (load_snapshot (record s { pending = [] }) snap) refl,
            )
            (settle-deliver (load_snapshot s snap) t refl settled)
      | inr (e, invalid) ↦
          absurd (cc (ap (λ r. r.1) (rw (apply_snapshot_invalid big s snap invalid) at h)))
    ]
