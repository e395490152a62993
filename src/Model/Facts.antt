-- ===== src/Model/Facts.antt =====
-- internal/model/model.go: the fact rows, the write progress and the dead-letter record.
use market_data_backend.Prelude.{ℕ, String, List, Option, Bool}
use market_data_backend.Prelude.Int.{ℤ}

-- A `time.Time`: nanoseconds since Go's zero time, which is `pos 0`.
abbrev pub Time : Type 0
Time = ℤ

pub record PriceLevel : Type 0 where
  pub price : String
  pub quantity : String

pub record Trade : Type 0 where
  pub group_id : String
  pub input_id : String
  pub event_time : Time
  pub exchange_time : Option Time
  pub local_receive_time : Option Time
  pub trade_id : String
  pub raw_trade_id : String
  pub price : String
  pub quantity : String
  pub side : String
  pub is_aggregated : Bool
  pub kafka_topic : String
  pub kafka_partition : ℕ
  pub kafka_offset : ℤ
  pub schema_version : ℤ

pub record Kline : Type 0 where
  pub group_id : String
  pub input_id : String
  pub source : String
  pub interval : String
  pub open_time : Time
  pub close_time : Time
  pub open_price : String
  pub high : String
  pub low : String
  pub close_price : String
  pub volume : String
  pub quote_volume : String
  pub trade_count : ℤ
  pub is_closed : Bool
  pub revision : ℤ
  pub kafka_topic : String
  pub kafka_partition : ℕ
  pub kafka_offset : ℤ

pub record OrderBookDelta : Type 0 where
  pub group_id : String
  pub input_id : String
  pub event_time : Time
  pub exchange_time : Option Time
  pub local_receive_time : Option Time
  pub raw_event_id : String
  pub first_update_id : Option ℤ
  pub last_update_id : Option ℤ
  pub prev_update_id : Option ℤ
  pub sequence : Option ℤ
  pub bids : List PriceLevel
  pub asks : List PriceLevel
  pub raw_payload : List ℕ
  pub kafka_topic : String
  pub kafka_partition : ℕ
  pub kafka_offset : ℤ

pub record StreamWriteProgress : Type 0 where
  pub input_id : String
  pub kafka_partition : ℕ
  pub durable_offset : ℤ
  pub last_raw_event_id : String
  pub last_update_id : Option ℤ
  pub last_sequence : Option ℤ

pub record OrderBookSnapshot : Type 0 where
  pub group_id : String
  pub input_id : String
  pub snapshot_time : Time
  pub sequence : Option ℤ
  pub bids : List PriceLevel
  pub asks : List PriceLevel

pub record PoisonRecord : Type 0 where
  pub input_id : String
  pub group_id : String
  pub stream_kind : String
  pub topic : String
  pub partition : ℕ
  pub offset : ℤ
  pub error_message : String
  pub raw_payload : List ℕ
