-- ===== src/OrderBook/Continuity.antt =====
-- internal/runtime/orderbook_state.go: `checkSequenceMatch`.
use market_data_backend.Prelude.{Option, none, some, Result, ok, guard, ◌==◌}
use market_data_backend.Prelude.Int.{ℤ, ℤ_eq, succ64}
use market_data_backend.Model.{OrderBookDelta}

pub data GapError : Type 0 where
  sequence_gap : (expected got : ℤ) → GapError
  first_update_id_gap : (expected got : ℤ) → GapError
  prev_update_id_mismatch : (expected got : ℤ) → GapError

-- The cursors of the book, then `sequence`, `first_update_id` and `prev_update_id` of the delta.
unfoldable pub match_cursors :
    (current_last_update current_seq sequence first_update_id prev_update_id : Option ℤ)
    → Result GapError (Unit {0})
match_cursors last (some current) (some sequence) first prev =
    guard (sequence == succ64 current) (sequence_gap (succ64 current) sequence)
match_cursors last none (some sequence) first prev = ok tt
match_cursors (some last) current none (some first) prev =
    guard (first == succ64 last) (first_update_id_gap (succ64 last) first)
match_cursors none current none (some first) prev = ok tt
match_cursors (some last) current none none (some prev) =
    guard (prev == last) (prev_update_id_mismatch last prev)
match_cursors last current none none prev = ok tt

unfoldable pub check_sequence_match :
    Option ℤ → Option ℤ → OrderBookDelta → Result GapError (Unit {0})
unfolding match_cursors
check_sequence_match current_last_update current_seq delta =
    match_cursors current_last_update current_seq delta.sequence delta.first_update_id
      delta.prev_update_id
