-- ===== src/Input/Types.antt =====
-- internal/runtime/input_worker.go: messages, pending records, the worker's state, and the trace
-- of what it did to the database, the broker and the order book.
use market_data_backend.Prelude.{ℕ, String, Bool, List, Option, Result}
use market_data_backend.Prelude.Int.{ℤ}
use market_data_backend.Model.{
  Time, Trade, Kline, OrderBookDelta, StreamWriteProgress, PoisonRecord, GroupInput, MarketGroup,
}
use market_data_backend.Input.Config.{BatchConfig}

-- internal/kafka/consumer.go.
pub record Message : Type 0 where
  pub topic : String
  pub partition : ℕ
  pub offset : ℤ
  pub value : List ℕ
  pub high_watermark : ℤ

-- The functions that decode, validate and map a message (internal/runtime/*decode.go).
pub record Builders : Type 0 where
  pub build_trade : GroupInput → Message → Result String Trade
  pub build_kline : GroupInput → Message → Result String Kline
  pub build_order_book_delta : GroupInput → Message → Result String OrderBookDelta

pub record PendingRecord : Type 0 where
  pub msg : Message
  pub event_time : Time
  pub trade : Option Trade
  pub kline : Option Kline
  pub delta : Option OrderBookDelta

-- internal/storage/storage.go.
pub record FactBatch : Type 0 where
  pub trades : List Trade
  pub klines : List Kline
  pub order_book_deltas : List OrderBookDelta
  pub progress : StreamWriteProgress

-- An effect that succeeded: a batch in the database, with the records that it was built from, a
-- poison record in the database, an offset committed to the broker, a delta told to the order book.
pub data Effect : Type 0 where
  wrote : FactBatch → List PendingRecord → Effect
  poisoned : PoisonRecord → Effect
  committed : (partition : ℕ) (offset : ℤ) → Effect
  notified : OrderBookDelta → Effect

-- `log` is the trace, the newest effect first.
pub record InputWorker : Type 0 where
  pub group : MarketGroup
  pub input : GroupInput
  pub node_id : String
  pub batch : BatchConfig
  pub flush_on_stop : Bool
  pub has_callback : Bool
  pub status : String
  pub last_err : String
  pub partition : ℕ
  pub committed_offset : Option ℤ
  pub high_wm : Option ℤ
  pub last_event : Option Time
  pub last_proc : Option Time
  pub last_delta_by_partition : List (ℕ × OrderBookDelta)
  pub loaded_progress : List (ℕ × Bool)
  pub durable_by_partition : List (ℕ × ℤ)
  pub snapshot_reset_seq : Option ℤ
  pub snapshot_reset_last_update : Option ℤ
  pub log : List Effect
