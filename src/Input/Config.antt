-- ===== src/Input/Config.antt =====
-- internal/runtime/input_worker.go: batch settings and the identity of an input.
use market_data_backend.Prelude.{String, Bool, true, ◌==◌, String_eq, if◌then◌else◌}
use market_data_backend.Prelude.Text.{is_empty}
use market_data_backend.Prelude.Int.{ℤ, pos, leb_ℤ}
use market_data_backend.Model.{GroupInput}
use market_data_backend.Model.StreamKind
use market_data_backend.Model.StreamKey.{new_input_id, default_kafka_group_id}

-- Durations are counted in nanoseconds.
pub record BatchConfig : Type 0 where
  pub size : ℤ
  pub flush_interval : ℤ

unfoldable pub batch_with_defaults : BatchConfig → BatchConfig
batch_with_defaults c = record {
  size = if leb_ℤ c.size (pos 0) then pos 1 else c.size;
  flush_interval = if leb_ℤ c.flush_interval (pos 0) then pos 100_000_000 else c.flush_interval;
}

pub record ConsumptionConfig : Type 0 where
  pub status_report_every : ℤ
  pub input_reconcile_every : ℤ
  pub trade_batch : BatchConfig
  pub kline_batch : BatchConfig
  pub order_book_delta_batch : BatchConfig
  pub snapshot_interval : ℤ

unfoldable pub batch_for : ConsumptionConfig → String → BatchConfig
unfolding batch_with_defaults
batch_for c kind =
    if kind == StreamKind.trade
    then batch_with_defaults c.trade_batch
    else if kind == StreamKind.kline
    then batch_with_defaults c.kline_batch
    else if kind == StreamKind.order_book_delta
    then batch_with_defaults c.order_book_delta_batch
    else batch_with_defaults (record { size = pos 0; flush_interval = pos 0 })

-- internal/runtime/decode.go.
unfoldable pub input_id : GroupInput → String
input_id in_ =
    if is_empty in_.input_id then new_input_id in_.group_id in_.stream_key else in_.input_id

unfoldable pub consumer_group_id : GroupInput → String
consumer_group_id in_ =
    if is_empty in_.kafka_group_id
    then default_kafka_group_id in_.group_id in_.stream_key
    else in_.kafka_group_id

unfoldable pub is_retryable_stage : String → Bool
is_retryable_stage stage = if stage == "sequence" then true else stage == "durable"

unfoldable pub is_consumable_stream_kind : String → Bool
is_consumable_stream_kind kind =
    if kind == StreamKind.trade
    then true
    else if kind == StreamKind.kline
    then true
    else if kind == StreamKind.order_book_delta
    then true
    else kind == StreamKind.order_book_snapshot
