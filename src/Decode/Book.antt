-- ===== src/Decode/Book.antt =====
-- internal/runtime/orderbook_decode.go and orderbook_snapshot_decode.go.
use Prim.Native.String.{◌++◌}
use market_data_backend.Prelude.{
  ℕ, ◌+◌, String, Bool, true, false, List, [], ◌∷◌, Option, none, some, Result, ok, ◌>>=◌, ◌>>◌,
  guard, not, is_some, ◌&&◌,
}
use market_data_backend.Prelude.Int.{ℤ, pos, leb_ℤ}
use market_data_backend.Prelude.Text.{trim_space, quoted, show_nat}
use market_data_backend.Numeric.{BigFloat}
use market_data_backend.Model.{PriceLevel, OrderBookDelta, OrderBookSnapshot, GroupInput}
use market_data_backend.Input.Config.{input_id}
use market_data_backend.Input.Types.{Message}
use market_data_backend.Decode.{FlexTime, optional_time}
use market_data_backend.Decode.Trade.{time_or_zero}
use market_data_backend.Decode.Decimal.{valid_positive_numeric, valid_non_negative_numeric}

pub record OrderBookDeltaMessage : Type 0 where
  pub event_time : FlexTime
  pub exchange_time : Option FlexTime
  pub local_receive_time : Option FlexTime
  pub raw_event_id : String
  pub first_update_id : Option ℤ
  pub last_update_id : Option ℤ
  pub prev_update_id : Option ℤ
  pub sequence : Option ℤ
  pub bids : List PriceLevel
  pub asks : List PriceLevel

pub record OrderBookSnapshotMessage : Type 0 where
  pub event_time : FlexTime
  pub exchange_time : Option FlexTime
  pub local_receive_time : Option FlexTime
  pub sequence : Option ℤ
  pub bids : List PriceLevel
  pub asks : List PriceLevel

abbrev pub Checks : Type 0
Checks = Result String (Unit {0})

abbrev pub is_non_negative : Option ℤ → Bool
is_non_negative none = true
is_non_negative (some x) = leb_ℤ (pos 0) x

abbrev pub in_order : Option ℤ → Option ℤ → Bool
in_order (some first) (some last) = leb_ℤ first last
in_order _ _ = true

abbrev pub is_nil {ℓ} : {A : Type ℓ} → List A → Bool
is_nil [] = true
is_nil (x ∷ xs) = false

abbrev pub check_cursor : String → Option ℤ → Checks
check_cursor name cursor =
    guard (is_non_negative cursor) ("orderbook delta: " ++ (name ++ " must be non-negative"))

unfoldable pub check_cursors : OrderBookDeltaMessage → Checks
check_cursors dm =
    check_cursor "first_update_id" dm.first_update_id
    >> check_cursor "last_update_id" dm.last_update_id
    >> check_cursor "prev_update_id" dm.prev_update_id
    >> check_cursor "sequence" dm.sequence
    >> guard (in_order dm.first_update_id dm.last_update_id)
        "orderbook delta: first_update_id must not exceed last_update_id"

abbrev pub level_error : String → ℕ → String → String → String
level_error side i what value =
    "orderbook delta: invalid "
    ++ (side ++ ("[" ++ (show_nat i ++ ("] " ++ (what ++ (" " ++ quoted value))))))

module _ (big : BigFloat) where
  -- The loop of `validatePriceLevels` from index `i` on.
  unfoldable pub check_levels : String → ℕ → List PriceLevel → Checks
  check_levels side i [] = ok tt
  check_levels side i (level ∷ levels) =
      guard (valid_positive_numeric big level.price) (level_error side i "price" level.price)
      >> guard (valid_non_negative_numeric big level.quantity)
          (level_error side i "quantity" level.quantity)
      >> check_levels side (i + 1) levels

  unfoldable pub validate_price_levels : String → List PriceLevel → Checks
  unfolding check_levels
  validate_price_levels side levels = check_levels side 0 levels

  unfoldable pub validate_delta : OrderBookDeltaMessage → Checks
  unfolding check_cursors validate_price_levels
  validate_delta dm =
      guard (is_some dm.event_time) "orderbook delta: missing event_time"
      >> check_cursors dm
      >> guard (not (is_nil dm.bids && is_nil dm.asks))
          "orderbook delta: bids and asks cannot both be empty"
      >> validate_price_levels "bids" dm.bids
      >> validate_price_levels "asks" dm.asks

  unfoldable pub validate_snapshot : OrderBookSnapshotMessage → Checks
  unfolding validate_price_levels
  validate_snapshot sm =
      guard (is_some sm.event_time) "orderbook snapshot: missing event_time"
      >> guard (is_non_negative sm.sequence) "orderbook snapshot: sequence must be non-negative"
      >> guard (not (is_nil sm.bids && is_nil sm.asks))
          "orderbook snapshot: bids and asks cannot both be empty"
      >> validate_price_levels "bids" sm.bids
      >> validate_price_levels "asks" sm.asks

unfoldable pub to_order_book_delta : OrderBookDeltaMessage → GroupInput → Message → OrderBookDelta
unfolding input_id
to_order_book_delta dm in_ msg = record {
  group_id = in_.group_id;
  input_id = input_id in_;
  event_time = time_or_zero dm.event_time;
  exchange_time = optional_time dm.exchange_time;
  local_receive_time = optional_time dm.local_receive_time;
  raw_event_id = trim_space dm.raw_event_id;
  first_update_id = dm.first_update_id;
  last_update_id = dm.last_update_id;
  prev_update_id = dm.prev_update_id;
  sequence = dm.sequence;
  bids = dm.bids;
  asks = dm.asks;
  raw_payload = [];
  kafka_topic = msg.topic;
  kafka_partition = msg.partition;
  kafka_offset = msg.offset;
}

unfoldable pub to_order_book_snapshot :
    OrderBookSnapshotMessage → GroupInput → Message → OrderBookSnapshot
unfolding input_id
to_order_book_snapshot sm in_ msg = record {
  group_id = in_.group_id;
  input_id = input_id in_;
  snapshot_time = time_or_zero sm.event_time;
  sequence = sm.sequence;
  bids = sm.bids;
  asks = sm.asks;
}

module _ (big : BigFloat) where
  unfoldable pub build_order_book_delta :
      (decode : List ℕ → Result String OrderBookDeltaMessage)
      → GroupInput
      → Message
      → Result String OrderBookDelta
  unfolding validate_delta to_order_book_delta
  build_order_book_delta decode in_ msg =
      decode msg.value >>= λ dm. validate_delta big dm >> ok (to_order_book_delta dm in_ msg)

  unfoldable pub build_order_book_snapshot :
      (decode : List ℕ → Result String OrderBookSnapshotMessage)
      → GroupInput
      → Message
      → Result String OrderBookSnapshot
  unfolding validate_snapshot to_order_book_snapshot
  build_order_book_snapshot decode in_ msg =
      decode msg.value >>= λ sm. validate_snapshot big sm >> ok (to_order_book_snapshot sm in_ msg)
