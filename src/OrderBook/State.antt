-- ===== src/OrderBook/State.antt =====
-- internal/runtime/orderbook_state.go: `orderBookState` and its operations. A method returns the
-- new state beside its result; each runs under the state's lock from start to end.
pub mod Drain
pub mod Invariant
pub mod Sequence
pub mod Buffer
pub mod RoundTrip
use market_data_backend.Prelude.{
  ℕ, String, Bool, true, false, List, [], ◌∷◌, ◌++◌, Option, none, some, Result, ok, err, leb, ltb,
  length, if◌then◌else◌, ◌&&◌, ◌||◌,
}
use market_data_backend.Prelude.Int.{ℤ, leb_ℤ}
use market_data_backend.Model.{Time, PriceLevel, OrderBookDelta, OrderBookSnapshot}
use market_data_backend.Numeric.{BigFloat}
use market_data_backend.OrderBook.Levels.{Side, apply_levels, load_levels}
use market_data_backend.OrderBook.Continuity.{GapError, check_sequence_match}
use market_data_backend.OrderBook.Export.{
  OrderError, validate_bid_ask_order, export_levels, desc, asc,
}

pub data BookError : Type 0 where
  snapshot_ordering : OrderError → BookError
  pending_after_snapshot : GapError → BookError
  pending_buffer_full : ℕ → BookError
  sequence_gap : GapError → BookError

pub record OrderBookState : Type 0 where
  pub ready : Bool
  pub group_id : String
  pub input_id : String
  pub snap_input : String
  pub bids : Side
  pub asks : Side
  pub last_update_id : Option ℤ
  pub sequence : Option ℤ
  pub pending : List OrderBookDelta
  pub max_pending : ℕ

abbrev pub default_max_pending : ℕ
default_max_pending = 10000

unfoldable pub new_order_book_state : String → String → OrderBookState
new_order_book_state group_id snap_input = record {
  ready = false;
  group_id = group_id;
  input_id = "";
  snap_input = snap_input;
  bids = [];
  asks = [];
  last_update_id = none;
  sequence = none;
  pending = [];
  max_pending = default_max_pending;
}

unfoldable pub is_ready : OrderBookState → Bool
is_ready s = s.ready

unfoldable pub reset : OrderBookState → OrderBookState
reset s = record s {
  bids = [];
  asks = [];
  last_update_id = none;
  sequence = none;
  ready = false;
  pending = [];
}

-- The cursor that a delta leaves: its own value, or the old one if it carries none.
abbrev pub or_else : Option ℤ → Option ℤ → Option ℤ
or_else (some x) old = some x
or_else none old = old

-- The book after the levels of a delta that passed the gap check.
unfoldable pub write_delta : OrderBookState → OrderBookDelta → OrderBookState
write_delta s delta = record s {
  bids = apply_levels s.bids delta.bids;
  asks = apply_levels s.asks delta.asks;
  last_update_id = delta.last_update_id;
  sequence = or_else delta.sequence s.sequence;
}

-- `applyOne`: `true` is its only result without an error.
unfoldable pub apply_one : OrderBookState → OrderBookDelta → Result GapError OrderBookState
unfolding write_delta
apply_one s delta = elim (check_sequence_match s.last_update_id s.sequence delta) [
  | ok _ ↦ ok (write_delta s delta)
  | err e ↦ err e
]

abbrev pub not_ahead : Option ℤ → Option ℤ → Bool
not_ahead (some current) (some own) = leb_ℤ own current
not_ahead _ _ = false

-- A buffered delta that is skipped: it is not ahead of the book's cursors.
unfoldable pub is_stale : OrderBookState → OrderBookDelta → Bool
is_stale s delta =
    if not_ahead s.last_update_id delta.last_update_id
    then true
    else not_ahead s.sequence delta.sequence

-- The second loop of `drainPending`.
unfoldable pub apply_rest : OrderBookState → List OrderBookDelta → OrderBookState × Option GapError
apply_rest s [] = (s, none)
apply_rest s (delta ∷ deltas) = elim (apply_one s delta) [
  | ok s' ↦ apply_rest s' deltas
  | err e ↦ (s, some e)
]

-- The first loop of `drainPending`, up to the first delta that is ahead.
unfoldable pub drain_from : OrderBookState → List OrderBookDelta → OrderBookState × Option GapError
unfolding is_stale apply_rest
drain_from s [] = (s, none)
drain_from s (delta ∷ deltas) = elim (is_stale s delta) [
  | true ↦ drain_from s deltas
  | false ↦ apply_rest s (delta ∷ deltas)
]

unfoldable pub drain_pending : OrderBookState → OrderBookState × Option GapError
unfolding drain_from
drain_pending s = drain_from (record s { pending = [] }) s.pending

-- The book right after a valid snapshot replaced its levels and cursors.
unfoldable pub load_snapshot : OrderBookState → OrderBookSnapshot → OrderBookState
load_snapshot s snap = record s {
  bids = load_levels [] snap.bids;
  asks = load_levels [] snap.asks;
  last_update_id = none;
  sequence = snap.sequence;
  input_id = snap.input_id;
  ready = true;
}

abbrev pub after_drain : OrderBookState × Option GapError → OrderBookState × Option BookError
after_drain (s, none) = (s, none)
after_drain (s, some e) = (record s { pending = [] }, some (pending_after_snapshot e))

-- `if len(s.pending) > 0` of `applySnapshot`.
unfoldable pub settle : OrderBookState → OrderBookState × Option BookError
unfolding drain_pending
settle s = if ltb 0 (length s.pending) then after_drain (drain_pending s) else (s, none)

unfoldable pub apply_snapshot :
    BigFloat → OrderBookState → OrderBookSnapshot → OrderBookState × Option BookError
unfolding settle load_snapshot
apply_snapshot big s snap = elim (validate_bid_ask_order big snap.bids snap.asks) [
  | ok _ ↦ settle (load_snapshot s snap)
  | err e ↦ (s, some (snapshot_ordering e))
]

abbrev pub applied_one :
    OrderBookState → Result GapError OrderBookState → OrderBookState × Result BookError Bool
applied_one s (ok s') = (s', ok true)
applied_one s (err e) = (s, err (sequence_gap e))

abbrev pub drained_then :
    OrderBookState × Option GapError → OrderBookDelta → OrderBookState × Result BookError Bool
drained_then (s, none) delta = applied_one s (apply_one s delta)
drained_then (s, some e) delta = (s, err (sequence_gap e))

-- `applyDelta`: whether the delta was applied (`false`: buffered), or an error.
unfoldable pub apply_delta :
    OrderBookState → OrderBookDelta → OrderBookState × Result BookError Bool
unfolding apply_one drain_pending
apply_delta s delta =
    if s.ready
    then (if ltb 0 (length s.pending)
        then drained_then (drain_pending s) delta
        else applied_one s (apply_one s delta))
    else if leb s.max_pending (length s.pending)
    then (s, err (pending_buffer_full s.max_pending))
    else (record s { pending = s.pending ++ delta ∷ [] }, ok false)

abbrev pub reset_on_error : OrderBookState × Result BookError Bool → OrderBookState
reset_on_error (s, ok applied) = s
reset_on_error (s, err e) = reset s

-- internal/runtime/worker.go, `onDeltaApplied`: an error resets the book.
unfoldable pub on_delta_applied : OrderBookState → OrderBookDelta → OrderBookState
unfolding reset
on_delta_applied s delta = reset_on_error (apply_delta s delta)

abbrev pub snapshot_of :
    OrderBookState
    → Time
    → Option (List PriceLevel)
    → Option (List PriceLevel)
    → Option OrderBookSnapshot
snapshot_of s at (some bids) (some asks) = some (record {
  group_id = s.group_id;
  input_id = s.input_id;
  snapshot_time = at;
  sequence = s.sequence;
  bids = bids;
  asks = asks;
})
snapshot_of s at _ _ = none

-- `none` is a panic on a price that is no decimal.
unfoldable pub generate_snapshot : BigFloat → OrderBookState → Time → Option OrderBookSnapshot
generate_snapshot big s at =
    if s.ready
    then snapshot_of s at (export_levels big s.bids desc) (export_levels big s.asks asc)
    else some (record {
      group_id = s.group_id;
      input_id = s.input_id;
      snapshot_time = at;
      sequence = none;
      bids = [];
      asks = [];
    })

unfoldable pub get_sequence_and_last_update_id : OrderBookState → Option ℤ × Option ℤ
get_sequence_and_last_update_id s = (s.sequence, s.last_update_id)
