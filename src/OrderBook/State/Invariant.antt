-- ===== src/OrderBook/State/Invariant.antt =====
-- The invariant of the order book over every sequence of operations.
use market_data_backend.Prelude.{
  String, ◌≤◌, Bool, true, false, List, [], ◌∷◌, ◌++◌, Option, none, some, Result, ok, err, ◌≡◌,
  refl, ◌∙◌, arith, Bool-cases, Result-cases, List-cases, inl, inr, length, length-append, leb,
  if◌then◌else◌,
}
use market_data_backend.Model.{OrderBookDelta, OrderBookSnapshot}
use market_data_backend.Numeric.{BigFloat}
use market_data_backend.OrderBook.Levels.Shape.{nil-IsSide, load_levels-IsSide}
use market_data_backend.OrderBook.Continuity.{GapError}
use market_data_backend.OrderBook.Export.{validate_bid_ask_order}
use market_data_backend.OrderBook.State.{
  OrderBookState, BookError, new_order_book_state, reset, write_delta, apply_one, drain_pending,
  load_snapshot, settle, apply_snapshot, apply_delta, applied_one, on_delta_applied, reset_on_error,
  after_drain, pending_buffer_full,
}
use market_data_backend.OrderBook.State.Drain.{
  IsBook, write_delta-Follows, apply_one-cases, drain_from-Follows,
}

-- Between two operations: both sides are well formed, a ready book has nothing buffered, a book
-- that waits for a snapshot holds no levels, and the buffer is within its cap.
pub record IsValid (s : OrderBookState) : Type 0 where
  pub book : IsBook s
  pub drained : s.ready ≡ true → s.pending ≡ []
  pub blank : s.ready ≡ false → (s.bids ≡ []) × (s.asks ≡ [])
  pub within_cap : length s.pending ≤ s.max_pending

-- What the outside does with the book.
pub data Call : Type 0 where
  snapshot : OrderBookSnapshot → Call
  delta : OrderBookDelta → Call
  clear : Call

unfoldable pub step : BigFloat → OrderBookState → Call → OrderBookState
step big s (snapshot snap) = (apply_snapshot big s snap).0
step big s (delta d) = on_delta_applied s d
step big s clear = reset s

unfoldable pub run : BigFloat → OrderBookState → List Call → OrderBookState
run big s [] = s
run big s (call ∷ calls) = run big (step big s call) calls

nil-IsBook : (s : OrderBookState) → s.bids ≡ [] → s.asks ≡ [] → IsBook s
nil-IsBook s p q = record { bids_side = rw p nil-IsSide; asks_side = rw q nil-IsSide }

pub new-IsValid :
    (group_id snap_input : String) → IsValid (new_order_book_state group_id snap_input)
unfolding new_order_book_state
new-IsValid group_id snap_input = record {
  book = nil-IsBook (new_order_book_state group_id snap_input) refl refl;
  drained = λ _. refl;
  blank = λ _. (refl, refl);
  within_cap = omega arith;
}

pub reset-IsValid : (s : OrderBookState) → IsValid (reset s)
unfolding reset
reset-IsValid s = record {
  book = nil-IsBook (reset s) refl refl;
  drained = λ _. refl;
  blank = λ _. (refl, refl);
  within_cap = omega arith;
}

load_snapshot-IsBook :
    (s : OrderBookState) (snap : OrderBookSnapshot) → IsBook (load_snapshot s snap)
unfolding load_snapshot
load_snapshot-IsBook s snap = record {
  bids_side = load_levels-IsSide [] snap.bids nil-IsSide;
  asks_side = load_levels-IsSide [] snap.asks nil-IsSide;
}

-- A ready book with nothing buffered and both sides well formed.
ready-IsValid : (s : OrderBookState) → IsBook s → s.ready ≡ true → s.pending ≡ [] → IsValid s
ready-IsValid s book ready empty = record {
  book = book;
  drained = λ _. empty;
  blank = λ waiting. absurd (cc);
  within_cap = rw empty (omega arith);
}

drain_pending-IsValid :
    (s : OrderBookState) → IsBook s → s.ready ≡ true → IsValid (drain_pending s).0
unfolding drain_pending
drain_pending-IsValid s book ready =
    let f = drain_from-Follows (record s { pending = [] }) s.pending in
    ready-IsValid (drain_pending s).0
      (f.keeps_book (record { bids_side = book.bids_side; asks_side = book.asks_side }))
      (f.same_ready ∙ ready) f.same_pending

after_drain-IsValid :
    (r : OrderBookState × Option GapError) → IsValid r.0 → IsValid (after_drain r).0
after_drain-IsValid (s, none) v = v
after_drain-IsValid (s, some e) v = record {
  book = record { bids_side = v.book.bids_side; asks_side = v.book.asks_side };
  drained = λ _. refl;
  blank = v.blank;
  within_cap = omega arith;
}

-- With nothing buffered there is nothing to settle.
pub settle_empty : (s : OrderBookState) → s.pending ≡ [] → settle s ≡ (s, none)
unfolding settle
settle_empty s empty = ground arith

settle-IsValid : (s : OrderBookState) → IsBook s → s.ready ≡ true → IsValid (settle s).0
unfolding settle
settle-IsValid s book ready = elim (List-cases s.pending) [
  | inl empty ↦ rw (settle_empty s empty) (ready-IsValid s book ready empty)
  | inr filled ↦
      rw (filled, settle)
        (after_drain-IsValid (drain_pending s) (drain_pending-IsValid s book ready))
]

pub apply_snapshot-IsValid :
    (big : BigFloat) (s : OrderBookState) (snap : OrderBookSnapshot)
    → IsValid s
    → IsValid (apply_snapshot big s snap).0
unfolding apply_snapshot
apply_snapshot-IsValid big s snap v =
    elim (Result-cases (validate_bid_ask_order big snap.bids snap.asks)) [
      | inl (_, valid) ↦
          rw (valid, apply_snapshot)
            (settle-IsValid (load_snapshot s snap) (load_snapshot-IsBook s snap)
              (unfold load_snapshot in refl))
      | inr (e, invalid) ↦ rw (invalid, apply_snapshot) v
    ]

-- On a ready book nothing is buffered, so a delta is checked and written at once.
pub apply_delta_ready :
    (s : OrderBookState) (d : OrderBookDelta)
    → s.ready ≡ true
    → s.pending ≡ []
    → apply_delta s d ≡ applied_one s (apply_one s d)
unfolding apply_delta
apply_delta_ready s d ready empty = rw (ready, empty, apply_delta)

applied_one-IsValid :
    (s : OrderBookState) (d : OrderBookDelta)
    → s.ready ≡ true
    → IsValid s
    → IsValid (applied_one s (apply_one s d)).0
applied_one-IsValid s d ready v = elim (apply_one-cases s d) [
  | inl (written, _) ↦
      let f = write_delta-Follows s d in
      rw written (
        ready-IsValid (write_delta s d) (f.keeps_book v.book) (f.same_ready ∙ ready)
          (f.same_pending ∙ v.drained ready))
  | inr (e, gap, _) ↦ rw gap v
]

pub apply_delta_waiting :
    (s : OrderBookState) (d : OrderBookDelta)
    → s.ready ≡ false
    → apply_delta s d ≡ (
        if leb s.max_pending (length s.pending)
        then (s, err (pending_buffer_full s.max_pending))
        else (record s { pending = s.pending ++ d ∷ [] }, ok false))
unfolding apply_delta
apply_delta_waiting s d waiting = ground arith

-- A waiting book buffers the delta, or refuses it at the cap and stays as it is.
waiting-IsValid :
    (s : OrderBookState) (d : OrderBookDelta)
    → s.ready ≡ false
    → IsValid s
    → IsValid (apply_delta s d).0
waiting-IsValid s d waiting v = elim (Bool-cases (leb s.max_pending (length s.pending))) [
  | inl full ↦ rw (apply_delta_waiting s d waiting, full) v
  | inr room ↦
      rw (apply_delta_waiting s d waiting, room)
        (record {
          book = record { bids_side = v.book.bids_side; asks_side = v.book.asks_side };
          drained = λ ready. absurd (cc);
          blank = v.blank;
          within_cap = ground (arith, length-append s.pending (d ∷ []));
        })
]

pub apply_delta-IsValid :
    (s : OrderBookState) (d : OrderBookDelta) → IsValid s → IsValid (apply_delta s d).0
apply_delta-IsValid s d v = elim (Bool-cases s.ready) [
  | inl ready ↦ rw (apply_delta_ready s d ready (v.drained ready)) (applied_one-IsValid s d ready v)
  | inr waiting ↦ waiting-IsValid s d waiting v
]

reset_on_error-IsValid :
    (r : OrderBookState × Result BookError Bool) → IsValid r.0 → IsValid (reset_on_error r)
reset_on_error-IsValid (s, ok applied) v = v
reset_on_error-IsValid (s, err e) v = reset-IsValid s

pub on_delta_applied-IsValid :
    (s : OrderBookState) (d : OrderBookDelta) → IsValid s → IsValid (on_delta_applied s d)
unfolding on_delta_applied
on_delta_applied-IsValid s d v =
    reset_on_error-IsValid (apply_delta s d) (apply_delta-IsValid s d v)

pub step-IsValid :
    (big : BigFloat) (s : OrderBookState) (call : Call) → IsValid s → IsValid (step big s call)
unfolding step
step-IsValid big s (snapshot snap) v = apply_snapshot-IsValid big s snap v
step-IsValid big s (delta d) v = on_delta_applied-IsValid s d v
step-IsValid big s clear v = reset-IsValid s

run-IsValid_from :
    (big : BigFloat) (s : OrderBookState) (calls : List Call)
    → IsValid s
    → IsValid (run big s calls)
unfolding run
run-IsValid_from big s [] v = v
run-IsValid_from big s (call ∷ calls) v =
    run-IsValid_from big (step big s call) calls (step-IsValid big s call v)

-- From a new book, every sequence of snapshots, deltas and resets leaves a book whose sides hold no
-- quantity that is spelled "0" or "0.0" (other spellings of zero stay), that has nothing buffered
-- when it is ready, holds no levels when it is not, and never buffers more deltas than its cap.
pub run-IsValid :
    (big : BigFloat) (group_id snap_input : String) (calls : List Call)
    → IsValid (run big (new_order_book_state group_id snap_input) calls)
run-IsValid big group_id snap_input calls =
    run-IsValid_from big (new_order_book_state group_id snap_input) calls
      (new-IsValid group_id snap_input)
