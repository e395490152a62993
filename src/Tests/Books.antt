-- ===== src/Tests/Books.antt =====
-- internal/runtime/orderbook_state.go on a small book.
use market_data_backend.Prelude.{
  ◌≡◌, refl, List, [], ◌∷◌, String_eq, none, some, true, false, subst,
}
use market_data_backend.Prelude.Int.{pos, ℤ_eq, succ64}
use market_data_backend.Prelude.Map
use market_data_backend.Prelude.Sort.{sort}
use market_data_backend.Prelude.Text.{trim_space}
use market_data_backend.Model.{OrderBookDelta, OrderBookSnapshot}
use market_data_backend.Numeric.{compare_numeric}
use market_data_backend.OrderBook.Levels.{
  Side, is_zero_quantity, set_level, apply_levels, add_level, load_levels,
}
use market_data_backend.OrderBook.Levels.Lookup.{lookup-apply_levels, last_level, decided}
use market_data_backend.OrderBook.Continuity.{check_sequence_match}
use market_data_backend.OrderBook.Export.{validate_bid_ask_order, export_levels}
use market_data_backend.OrderBook.State.{
  OrderBookState, new_order_book_state, apply_snapshot, apply_delta, on_delta_applied,
  generate_snapshot,
}
use market_data_backend.OrderBook.State.Invariant.{
  IsValid, step, run, run-IsValid, Call, snapshot, delta,
}
use market_data_backend.OrderBook.State.Sequence.{
  deliver, deliver_ready-IsContiguous, deliver-ready_of_IsContiguous, IsContiguous, last_sequence,
}
use market_data_backend.OrderBook.State.Buffer.{drop_stale, apply_snapshot-deliver}
use market_data_backend.OrderBook.State.RoundTrip.{SameBook, apply_snapshot-generate_snapshot}
use market_data_backend.Tests.Samples.{whole, level, delta_at, snapshot_at}

abbrev first : OrderBookSnapshot
first = snapshot_at 4 (level "10" "1" ∷ level "9" "2" ∷ []) (level "11" "3" ∷ [])

abbrev fifth : OrderBookDelta
fifth = delta_at 5 (level "10" "0" ∷ level "8" "7" ∷ []) []

abbrev calls : List Call
calls = snapshot first ∷ delta fifth ∷ []

abbrev empty_book : OrderBookState
empty_book = record {
  ready = false;
  group_id = "g";
  input_id = "";
  snap_input = "s";
  bids = [];
  asks = [];
  last_update_id = none;
  sequence = none;
  pending = [];
  max_pending = 10000;
}

abbrev book : OrderBookState
book = record {
  ready = true;
  group_id = "g";
  input_id = "i";
  snap_input = "s";
  bids = ("9", "2") ∷ ("8", "7") ∷ [];
  asks = ("11", "3") ∷ [];
  last_update_id = none;
  sequence = some (pos 5);
  pending = [];
  max_pending = 10000;
}

program : Unit {0}
unfolding run step new_order_book_state apply_snapshot apply_delta on_delta_applied
    validate_bid_ask_order compare_numeric trim_space load_levels add_level apply_levels set_level
    is_zero_quantity Map.insert Map.delete check_sequence_match succ64 generate_snapshot
    export_levels sort drop_stale deliver
program = tt

run_book : run whole (new_order_book_state "g" "s") calls ≡ book
unfolding program
run_book = refl

book-IsValid : IsValid book
book-IsValid = subst IsValid run_book (run-IsValid whole "g" "s" calls)

run-IsValid_example : IsValid (run whole (new_order_book_state "g" "s") calls)
run-IsValid_example = run-IsValid whole "g" "s" calls

abbrev old_bids : Side
old_bids = ("10", "1") ∷ []

lookup-apply_levels_example :
    Map.lookup "10" (apply_levels old_bids fifth.bids)
    ≡ decided (last_level "10" fifth.bids) (Map.lookup "10" old_bids)
lookup-apply_levels_example = lookup-apply_levels "10" old_bids fifth.bids

abbrev next_two : List OrderBookDelta
next_two = delta_at 6 (level "9" "1" ∷ []) [] ∷ delta_at 7 [] (level "12" "1" ∷ []) ∷ []

next_two-IsContiguous : IsContiguous (pos 5) next_two
unfolding succ64
next_two-IsContiguous = (refl, (refl, tt))

deliver-ready_of_IsContiguous_example : (deliver book next_two).ready ≡ true
deliver-ready_of_IsContiguous_example =
    deliver-ready_of_IsContiguous book next_two (pos 5) book-IsValid refl refl next_two-IsContiguous

deliver_ready-IsContiguous_example :
    IsContiguous (pos 5) next_two
    × ((deliver book next_two).sequence ≡ some (last_sequence (pos 5) next_two))
deliver_ready-IsContiguous_example =
    deliver_ready-IsContiguous book next_two (pos 5) book-IsValid refl refl
      ((pos 6, refl), ((pos 7, refl), tt)) deliver-ready_of_IsContiguous_example

abbrev buffered : OrderBookState
buffered = record empty_book { pending = delta_at 4 [] [] ∷ fifth ∷ [] }

buffered_applied : apply_snapshot whole buffered first ≡ (book, none)
unfolding program
buffered_applied = refl

apply_snapshot-deliver_example :
    let start = (apply_snapshot whole empty_book first).0 in
    deliver start (drop_stale start buffered.pending) ≡ book
apply_snapshot-deliver_example = apply_snapshot-deliver whole buffered book first buffered_applied

abbrev exported : OrderBookSnapshot
exported = snapshot_at 5 (level "9" "2" ∷ level "8" "7" ∷ []) (level "11" "3" ∷ [])

exported_book : generate_snapshot whole book (pos 1) ≡ some exported
unfolding program
exported_book = refl

apply_snapshot-generate_snapshot_example :
    ((apply_snapshot whole empty_book exported).1 ≡ none)
    × ((apply_snapshot whole empty_book exported).0.ready ≡ true)
    × SameBook book (apply_snapshot whole empty_book exported).0
apply_snapshot-generate_snapshot_example =
    apply_snapshot-generate_snapshot whole book empty_book (pos 1) exported book-IsValid refl refl
      exported_book
