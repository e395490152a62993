-- ===== src/Tests/Deliveries.antt =====
-- One snapshot on its way from the broker to the book, and one that the book refuses.
use market_data_backend.Prelude.{true, [], ◌∷◌, none, some, ok, ◌≡◌, refl, arith, length, ◌≤◌, ◌⊎◌}
use market_data_backend.Prelude.Text
use market_data_backend.Prelude.Int.{pos}
use market_data_backend.Model.{GroupInput}
use market_data_backend.Model.StreamKind
use market_data_backend.Model.DesiredStatus
use market_data_backend.Numeric
use market_data_backend.Decode.Book
use market_data_backend.Decode.Book.{OrderBookSnapshotMessage}
use market_data_backend.Decode.Decimal
use market_data_backend.Input.Types.{Message}
use market_data_backend.OrderBook.Export
use market_data_backend.OrderBook.State.{OrderBookState, new_order_book_state, apply_snapshot}
use market_data_backend.Snapshot
use market_data_backend.Snapshot.{
  SnapshotInput, Delivery, System, waiting, exited, rejected, applied, new_system, handle_message,
  receive, commit, Steps, here, later, fetched, sent, received, acknowledged, commit_done,
  cancelled,
}
use market_data_backend.Snapshot.Order.{IsInOrder, Steps-IsInOrder}
use market_data_backend.Snapshot.Blocked.{rejected-IsFinal}
use market_data_backend.Tests.Samples.{whole, level, snapshot_at}

abbrev input : GroupInput
input = record {
  input_id = "i";
  group_id = "g";
  stream_key = "orderbook_snapshot";
  stream_kind = StreamKind.order_book_snapshot;
  interval = "";
  enabled = true;
  kafka_cluster = "k";
  kafka_topic = "t";
  kafka_group_id = "";
  desired_status = DesiredStatus.running;
  schema_version = pos 1;
}

abbrev snapshot_message : OrderBookSnapshotMessage
snapshot_message = record {
  event_time = some (pos 5);
  exchange_time = none;
  local_receive_time = none;
  sequence = some (pos 3);
  bids = level "100" "2" ∷ [];
  asks = level "101" "1" ∷ [];
}

abbrev worker : SnapshotInput
worker = record { big = whole; decode = λ bytes. ok snapshot_message; input = input }

abbrev message : Message
message = record {
  topic = "t";
  partition = 0;
  offset = pos 7;
  value = 1 ∷ [];
  high_watermark = pos 9;
}

abbrev book : OrderBookState
book = new_order_book_state "g" "i"

abbrev delivery : Delivery
delivery = record {
  id = 0;
  message = message;
  snapshot = Book.to_order_book_snapshot snapshot_message input message;
}

abbrev fetched_one : System
fetched_one = handle_message worker (new_system book) message

abbrev sent_one : System
sent_one = record fetched_one { phase = waiting delivery; channel = delivery ∷ [] }

abbrev answered : System
answered = receive worker (record sent_one { channel = [] }) delivery

abbrev done : System
done = commit (record answered { phase = Snapshot.committing delivery }) delivery

whole_way : Steps worker (new_system book) done
unfolding Snapshot.new_system Snapshot.handle_message Snapshot.receive
    Book.build_order_book_snapshot Book.validate_snapshot Book.validate_price_levels
    Decimal.valid_positive_numeric Text.trim_space Decimal.valid_non_negative_numeric apply_snapshot
    Export.validate_bid_ask_order new_order_book_state
whole_way =
    later
      (later
        (later (later (later here (fetched message refl)) (sent delivery refl (omega arith)))
          (received delivery [] refl refl))
        (acknowledged delivery refl refl))
      (commit_done delivery refl)

Steps-IsInOrder_example : IsInOrder done.log × (length done.channel ≤ 1)
Steps-IsInOrder_example = Steps-IsInOrder worker book done whole_way

-- The bids ascend.
abbrev unsorted : Delivery
unsorted = record {
  id = 4;
  message = message;
  snapshot = snapshot_at 3 (level "8" "1" ∷ level "9" "1" ∷ []) (level "10" "1" ∷ []);
}

abbrev waits : System
waits = record (new_system book) { phase = waiting unsorted; channel = unsorted ∷ []; next_id = 5 }

abbrev gone : System
gone = record (receive worker (record waits { channel = [] }) unsorted) { phase = exited }

rejected-IsFinal_example :
    (gone.log ≡ rejected unsorted ∷ []) × (gone.phase ≡ waiting unsorted ⊎ gone.phase ≡ exited)
unfolding new_system apply_snapshot Export.validate_bid_ask_order Numeric.compare_numeric
    Text.trim_space
rejected-IsFinal_example =
    rejected-IsFinal worker waits gone unsorted book _ refl refl refl (later here cancelled)
