-- ===== src/Input/Prepare.antt =====
-- internal/runtime/input_worker.go: `ensureProgress` and `prepare`.
use Prim.Native.String.{◌++◌}
use market_data_backend.Prelude.{
  ℕ, ℕ_eq, String, Bool, true, false, List, [], ◌∷◌, Option, none, some, Result, ok, err, ◌==◌,
  String_eq, if◌then◌else◌, is_some,
}
use market_data_backend.Prelude.Map
use market_data_backend.Prelude.Text.{quoted}
use market_data_backend.Prelude.Int.{ℤ, pos, negsuc, leb_ℤ}
use market_data_backend.Model.{Time, Trade, Kline, OrderBookDelta, StreamWriteProgress}
use market_data_backend.Model.StreamKind
use market_data_backend.Model.ActualStatus
use market_data_backend.Sequence.{check_delta_continuity}
use market_data_backend.Input.Types.{Message, Builders, PendingRecord, InputWorker}
use market_data_backend.Input.Status.{set_status, newer}

-- One call of `LoadStreamWriteProgress`; `load_cancelled` is a failure with the context done.
pub data LoadAttempt : Type 0 where
  loaded : Option StreamWriteProgress → LoadAttempt
  load_failed : String → LoadAttempt
  load_cancelled : LoadAttempt

-- The delta that stands for the progress in the database, with only its cursors known.
unfoldable pub progress_entry : InputWorker → StreamWriteProgress → OrderBookDelta
progress_entry iw progress = record {
  group_id = "";
  input_id = "";
  event_time = pos 0;
  exchange_time = none;
  local_receive_time = none;
  raw_event_id = progress.last_raw_event_id;
  first_update_id = none;
  last_update_id = newer iw.snapshot_reset_last_update progress.last_update_id;
  prev_update_id = none;
  sequence = newer iw.snapshot_reset_seq progress.last_sequence;
  bids = [];
  asks = [];
  raw_payload = [];
  kafka_topic = "";
  kafka_partition = 0;
  kafka_offset = pos 0;
}

unfoldable pub install_progress : InputWorker → ℕ → Option StreamWriteProgress → InputWorker
unfolding progress_entry
install_progress iw partition none = record iw {
  loaded_progress = Map.insert partition true iw.loaded_progress;
  durable_by_partition = Map.insert partition (negsuc 0) iw.durable_by_partition;
}
install_progress iw partition (some progress) = record iw {
  loaded_progress = Map.insert partition true iw.loaded_progress;
  durable_by_partition = Map.insert partition progress.durable_offset iw.durable_by_partition;
  partition = partition;
  committed_offset = some progress.durable_offset;
  last_delta_by_partition =
      if iw.input.stream_kind == StreamKind.order_book_delta
      then Map.insert partition (progress_entry iw progress) iw.last_delta_by_partition
      else iw.last_delta_by_partition;
  snapshot_reset_seq = none;
  snapshot_reset_last_update = none;
}

-- The loop of `ensureProgress`; when the attempts end, the wait between two of them was cancelled.
unfoldable pub load_progress : InputWorker → ℕ → List LoadAttempt → InputWorker × Bool
unfolding install_progress set_status
load_progress iw partition [] = (iw, false)
load_progress iw partition (loaded progress ∷ _) = (install_progress iw partition progress, true)
load_progress iw partition (load_failed e ∷ attempts) =
    load_progress (set_status iw ActualStatus.error ("load progress: " ++ e)) partition attempts
load_progress iw partition (load_cancelled ∷ _) = (iw, false)

abbrev pub flag : Option Bool → Bool
flag (some b) = b
flag none = false

unfoldable pub ensure_progress : InputWorker → ℕ → List LoadAttempt → InputWorker × Bool
unfolding load_progress
ensure_progress iw partition attempts =
    if flag (Map.lookup partition iw.loaded_progress)
    then (iw, true)
    else load_progress iw partition attempts

-- What a Go map of numbers returns for a missing key.
abbrev pub or_zero : Option ℤ → ℤ
or_zero (some x) = x
or_zero none = pos 0

pub data Prepared : Type 0 where
  prepared : PendingRecord → Prepared
  failed : (stage message : String) → Prepared

abbrev pub bare_record : Message → Time → PendingRecord
bare_record msg event_time = record {
  msg = msg;
  event_time = event_time;
  trade = none;
  kline = none;
  delta = none;
}

abbrev pub trade_record : Message → Result String Trade → Prepared
trade_record msg (ok t) = prepared (record (bare_record msg t.event_time) { trade = some t })
trade_record msg (err e) = failed "decode" e

abbrev pub kline_record : Message → Result String Kline → Prepared
kline_record msg (ok k) = prepared (record (bare_record msg k.close_time) { kline = some k })
kline_record msg (err e) = failed "decode" e

-- The delta case behind the continuity gate.
abbrev pub gated_delta :
    InputWorker → Message → OrderBookDelta → Result String Bool → InputWorker × Prepared
gated_delta iw msg d (err e) =
    if is_some iw.snapshot_reset_seq
    then (iw, prepared (bare_record msg d.event_time))
    else if is_some iw.snapshot_reset_last_update
    then (iw, prepared (bare_record msg d.event_time))
    else (iw, failed "sequence" e)
gated_delta iw msg d (ok false) = (iw, prepared (bare_record msg d.event_time))
gated_delta iw msg d (ok true) =
    let stored = record d { raw_payload = msg.value } in
    (
      record iw {
        last_delta_by_partition = Map.insert msg.partition stored iw.last_delta_by_partition;
      },
      prepared (record (bare_record msg d.event_time) { delta = some stored }),
    )

abbrev pub delta_record :
    InputWorker → Message → Result String OrderBookDelta → InputWorker × Prepared
delta_record iw msg (err e) = (iw, failed "decode" e)
delta_record iw msg (ok d) =
    gated_delta iw msg d
      (check_delta_continuity (Map.lookup msg.partition iw.last_delta_by_partition) d)

-- `prepare`: a message at or below the durable offset is kept without a fact.
unfoldable pub prepare : Builders → InputWorker → Message → InputWorker × Prepared
prepare b iw msg =
    if leb_ℤ msg.offset (or_zero (Map.lookup msg.partition iw.durable_by_partition))
    then (iw, prepared (bare_record msg (pos 0)))
    else if iw.input.stream_kind == StreamKind.trade
    then (iw, trade_record msg (b.build_trade iw.input msg))
    else if iw.input.stream_kind == StreamKind.kline
    then (iw, kline_record msg (b.build_kline iw.input msg))
    else if iw.input.stream_kind == StreamKind.order_book_delta
    then delta_record iw msg (b.build_order_book_delta iw.input msg)
    else (iw, failed "decode" ("unsupported stream_kind " ++ quoted iw.input.stream_kind))
