-- ===== src/Tests/Decoders.antt =====
-- A delta and a bar that pass their checks, and a bar that does not.
use market_data_backend.Prelude.{
  ℕ, String, true, List, [], ◌∷◌, none, some, Result, ok, err, String_eq, ◌≡◌, ◌≢◌, refl,
}
use market_data_backend.Prelude.Text
use market_data_backend.Numeric
use market_data_backend.Model.StreamKey
use market_data_backend.Decode.Decimal
use market_data_backend.Prelude.Int.{pos}
use market_data_backend.Model.{GroupInput}
use market_data_backend.Model.StreamKind
use market_data_backend.Model.DesiredStatus
use market_data_backend.Input.Types.{Message}
use market_data_backend.Decode.Book.{
  OrderBookDeltaMessage, to_order_book_delta, build_order_book_delta,
}
use market_data_backend.Decode.Bar.{KlineMessage, kline_source_exchange, panics, validate_kline}
use market_data_backend.Decode.Checked.Levels.{IsDelta, build_order_book_delta-IsDelta}
use market_data_backend.Decode.Checked.Bars.{IsBar, validate_kline-IsBar}
use market_data_backend.Decode.Checked.Panics.{validate_kline-returns}
use market_data_backend.Tests.Samples.{whole, level}

abbrev input_of : String → String → String → GroupInput
input_of key kind interval = record {
  input_id = "i";
  group_id = "g";
  stream_key = key;
  stream_kind = kind;
  interval = interval;
  enabled = true;
  kafka_cluster = "k";
  kafka_topic = "t";
  kafka_group_id = "";
  desired_status = DesiredStatus.running;
  schema_version = pos 1;
}

abbrev message : Message
message = record {
  topic = "t";
  partition = 2;
  offset = pos 7;
  value = 1 ∷ [];
  high_watermark = pos 9;
}

abbrev delta_message : OrderBookDeltaMessage
delta_message = record {
  event_time = some (pos 5);
  exchange_time = none;
  local_receive_time = none;
  raw_event_id = "";
  first_update_id = some (pos 3);
  last_update_id = some (pos 4);
  prev_update_id = none;
  sequence = none;
  bids = level "100" "2" ∷ [];
  asks = level "101" "0" ∷ [];
}

abbrev read : List ℕ → Result String OrderBookDeltaMessage
read bytes = ok delta_message

abbrev delta_input : GroupInput
delta_input = input_of "orderbook_delta" StreamKind.order_book_delta ""

build_order_book_delta-IsDelta_example :
    IsDelta whole delta_input message (to_order_book_delta delta_message delta_input message)
unfolding build_order_book_delta Decimal.valid_positive_numeric Text.trim_space
    Decimal.valid_non_negative_numeric
build_order_book_delta-IsDelta_example =
    build_order_book_delta-IsDelta whole read delta_input message
      (to_order_book_delta delta_message delta_input message) refl

abbrev bar : String → KlineMessage
bar low = record {
  source = " Exchange";
  interval = "1m";
  open_time = some (pos 5);
  close_time = some (pos 6);
  open_price = "10";
  high = "12";
  low = low;
  close_price = "11";
  volume = "0";
  quote_volume = "";
  trade_count = pos 3;
  is_closed = true;
  revision = pos 0;
}

abbrev bar_input : GroupInput
bar_input = input_of "kline_1m" StreamKind.kline "1m"

validate_kline-IsBar_example :
    IsBar whole bar_input (bar "9") × (kline_source_exchange ≡ kline_source_exchange)
unfolding validate_kline StreamKey.is_plain_kind Text.trim_space Text.lowers_to
    Decimal.valid_positive_numeric Decimal.valid_non_negative_numeric Numeric.compare_numeric
validate_kline-IsBar_example =
    validate_kline-IsBar whole (bar "9") bar_input kline_source_exchange refl

validate_kline-returns_example : validate_kline whole (bar "x") bar_input ≢ err panics
validate_kline-returns_example = validate_kline-returns whole (bar "x") bar_input
