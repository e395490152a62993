-- ===== src/Decode/Trade.antt =====
-- internal/runtime/decode.go: trades.
use Prim.Native.String.{◌++◌}
use market_data_backend.Prelude.{
  ℕ, String, Bool, List, Option, Result, ok, err, ◌>>=◌, ◌>>◌, guard, not, is_some, if◌then◌else◌,
  ◌||◌,
}
use market_data_backend.Prelude.Int.{ℤ, pos, leb_ℤ}
use market_data_backend.Prelude.Text.{trim_space, is_empty, lowers_to, quoted}
use market_data_backend.Numeric.{BigFloat}
use market_data_backend.Model.{Time, Trade, GroupInput}
use market_data_backend.Model.TradeSide
use market_data_backend.Input.Config.{input_id}
use market_data_backend.Input.Types.{Message}
use market_data_backend.Decode.{FlexTime, optional_time}
use market_data_backend.Decode.Decimal.{valid_positive_numeric}

pub record TradeMessage : Type 0 where
  pub event_time : FlexTime
  pub exchange_time : Option FlexTime
  pub local_receive_time : Option FlexTime
  pub trade_id : String
  pub raw_trade_id : String
  pub price : String
  pub quantity : String
  pub side : String
  pub is_aggregated : Bool

unfoldable pub normalize_side : String → Result String String
normalize_side s =
    let t = trim_space s in
    if lowers_to t "buy" || lowers_to t "b" || lowers_to t "bid"
    then ok TradeSide.buy
    else if lowers_to t "sell" || lowers_to t "s" || lowers_to t "ask"
    then ok TradeSide.sell
    else err ("trade: invalid side " ++ quoted s)

unfoldable pub schema_version_or_default : ℤ → ℤ
schema_version_or_default v = if leb_ℤ v (pos 0) then pos 1 else v

-- The event time of a validated message; Go's zero time where there is none.
abbrev pub time_or_zero : FlexTime → Time
time_or_zero t = elim t [ Option.none ↦ pos 0 | Option.some x ↦ x ]

module _ (big : BigFloat) where
  unfoldable pub validate_trade : TradeMessage → Result String String
  unfolding normalize_side
  validate_trade tm =
      guard (is_some tm.event_time) "trade: missing event_time"
      >> guard (not (is_empty (trim_space tm.price))) "trade: missing price"
      >> guard (valid_positive_numeric big tm.price) ("trade: invalid price " ++ quoted tm.price)
      >> guard (not (is_empty (trim_space tm.quantity))) "trade: missing quantity"
      >> guard (valid_positive_numeric big tm.quantity)
          ("trade: invalid quantity " ++ quoted tm.quantity)
      >> normalize_side tm.side

unfoldable pub to_trade : TradeMessage → GroupInput → Message → String → Trade
unfolding schema_version_or_default
to_trade tm in_ msg side = record {
  group_id = in_.group_id;
  input_id = input_id in_;
  event_time = time_or_zero tm.event_time;
  exchange_time = optional_time tm.exchange_time;
  local_receive_time = optional_time tm.local_receive_time;
  trade_id = trim_space tm.trade_id;
  raw_trade_id = trim_space tm.raw_trade_id;
  price = trim_space tm.price;
  quantity = trim_space tm.quantity;
  side = side;
  is_aggregated = tm.is_aggregated;
  kafka_topic = msg.topic;
  kafka_partition = msg.partition;
  kafka_offset = msg.offset;
  schema_version = schema_version_or_default in_.schema_version;
}

module _ (big : BigFloat) (decode_trade : List ℕ → Result String TradeMessage) where
  unfoldable pub build_trade : GroupInput → Message → Result String Trade
  build_trade in_ msg = decode_trade msg.value >>= λ tm.
      validate_trade big tm >>= λ side. ok (to_trade tm in_ msg side)
