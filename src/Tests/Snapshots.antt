-- ===== src/Tests/Snapshots.antt =====
-- A book of whole prices that was reset once.
use market_data_backend.Prelude.{List, [], ◌∷◌, refl}
use market_data_backend.Prelude.Int.{pos}
use market_data_backend.Prelude.Text
use market_data_backend.Numeric
use market_data_backend.OrderBook.State.{new_order_book_state, generate_snapshot}
use market_data_backend.OrderBook.State.Invariant.{Call, snapshot, delta, clear, run}
use market_data_backend.OrderBook.Priced.Sides.{IsSome}
use market_data_backend.OrderBook.Priced.Books.{generate_snapshot-run}
use market_data_backend.Tests.Samples.{whole, level, delta_at, snapshot_at}

abbrev history : List Call
history =
    clear
    ∷ snapshot (snapshot_at 5 (level "10" "1" ∷ level "9" "2" ∷ []) (level "12" "1" ∷ []))
    ∷ delta (delta_at 6 (level "10" "0" ∷ []) [])
    ∷ []

generate_snapshot-run_example :
    IsSome (generate_snapshot whole (run whole (new_order_book_state "g" "i") history) (pos 3))
unfolding Numeric.parse_price Text.trim_space
generate_snapshot-run_example =
    generate_snapshot-run whole "g" "i" history (pos 3)
      (tt, ((((10, refl), ((9, refl), tt)), ((12, refl), tt)), ((((10, refl), tt), tt), tt)))
