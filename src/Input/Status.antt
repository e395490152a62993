-- ===== src/Input/Status.antt =====
-- internal/runtime/input_worker.go: `advance`, `setStatus`, `lagLocked` and `snapshotLocked`.
use market_data_backend.Prelude.{String, Bool, false, [], Option, none, some, if◌then◌else◌}
use market_data_backend.Prelude.Int.{ℤ, pos, ltb_ℤ, ◌-ℤ◌, wrap64}
use market_data_backend.Model.{Time, GroupInput, MarketGroup, StreamRuntimeStatus}
use market_data_backend.Model.ActualStatus
use market_data_backend.Input.Config.{BatchConfig, batch_with_defaults, input_id}
use market_data_backend.Input.Types.{Message, InputWorker}

unfoldable pub new_input_worker :
    MarketGroup → GroupInput → String → BatchConfig → Bool → InputWorker
unfolding batch_with_defaults
new_input_worker group in_ node_id batch has_callback = record {
  group = group;
  input = in_;
  node_id = node_id;
  batch = batch_with_defaults batch;
  flush_on_stop = false;
  has_callback = has_callback;
  status = ActualStatus.running;
  last_err = "";
  partition = 0;
  committed_offset = none;
  high_wm = none;
  last_event = none;
  last_proc = none;
  last_delta_by_partition = [];
  loaded_progress = [];
  durable_by_partition = [];
  snapshot_reset_seq = none;
  snapshot_reset_last_update = none;
  log = [];
}

unfoldable pub set_status : InputWorker → String → String → InputWorker
set_status iw status last_err = record iw { status = status; last_err = last_err }

abbrev pub newer {ℓ} : {A : Type ℓ} → Option A → Option A → Option A
newer (some x) old = some x
newer none old = old

unfoldable pub advance : InputWorker → Message → Option Time → Time → InputWorker
advance iw msg event_time now = record iw {
  partition = msg.partition;
  committed_offset = some msg.offset;
  high_wm = if ltb_ℤ (pos 0) msg.high_watermark then some msg.high_watermark else iw.high_wm;
  last_event = newer event_time iw.last_event;
  last_proc = some now;
}

-- Both subtractions are on `int64`.
abbrev pub raw_lag : ℤ → ℤ → ℤ
raw_lag committed high_wm = wrap64 (wrap64 (high_wm -ℤ committed) -ℤ pos 1)

unfoldable pub lag_locked : Option ℤ → Option ℤ → Option ℤ
lag_locked (some committed) (some high_wm) =
    let lag = raw_lag committed high_wm in some (if ltb_ℤ lag (pos 0) then pos 0 else lag)
lag_locked _ _ = none

unfoldable pub snapshot_locked : InputWorker → String → String → StreamRuntimeStatus
unfolding lag_locked input_id
snapshot_locked iw status last_err = record {
  input_id = input_id iw.input;
  group_id = iw.group.group_id;
  stream_key = iw.input.stream_key;
  node_id = iw.node_id;
  actual_status = status;
  kafka_partition = some iw.partition;
  kafka_lag = lag_locked iw.committed_offset iw.high_wm;
  committed_offset = iw.committed_offset;
  high_watermark_offset = iw.high_wm;
  last_event_time = iw.last_event;
  last_processed_time = iw.last_proc;
  last_error = last_err;
}
