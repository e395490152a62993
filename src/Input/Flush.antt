-- ===== src/Input/Flush.antt =====
-- internal/runtime/input_worker.go: `flushBatch`.
use Prim.Native.String.{◌++◌}
use market_data_backend.Prelude.{
  ℕ, ℕ_eq, String, Bool, true, false, List, [], ◌∷◌, Option, none, some, ◌==◌, String_eq,
  if◌then◌else◌, last_or,
}
use market_data_backend.Prelude.Map
use market_data_backend.Prelude.Int.{ℤ_eq, pos}
use market_data_backend.Model.{Time, Trade, Kline, OrderBookDelta, StreamWriteProgress}
use market_data_backend.Model.StreamKind
use market_data_backend.Model.ActualStatus
use market_data_backend.Input.Config.{input_id}
use market_data_backend.Input.Types.{
  Message, PendingRecord, FactBatch, Effect, wrote, committed, notified, InputWorker,
}
use market_data_backend.Input.Status.{set_status, advance}

-- One call of the database or the broker; `cancelled` is a failure with the context done.
pub data Attempt : Type 0 where
  succeeded : Attempt
  failed_with : String → Attempt
  cancelled : Attempt

-- A retry loop; when the attempts end, the wait between two of them was cancelled.
unfoldable pub retry : String → InputWorker → List Attempt → InputWorker × Bool
unfolding set_status
retry what iw [] = (iw, false)
retry what iw (succeeded ∷ _) = (iw, true)
retry what iw (failed_with e ∷ attempts) =
    retry what (set_status iw ActualStatus.error (what ++ e)) attempts
retry what iw (cancelled ∷ _) = (iw, false)

abbrev pub push {ℓ} : {A : Type ℓ} → Option A → List A → List A
push none xs = xs
push (some x) xs = x ∷ xs

unfoldable pub trades_of : List PendingRecord → List Trade
trades_of [] = []
trades_of (r ∷ rs) = push r.trade (trades_of rs)

unfoldable pub klines_of : List PendingRecord → List Kline
klines_of [] = []
klines_of (r ∷ rs) = push r.kline (klines_of rs)

unfoldable pub deltas_of : List PendingRecord → List OrderBookDelta
deltas_of [] = []
deltas_of (r ∷ rs) = push r.delta (deltas_of rs)

-- The cursors of the progress row; the zero delta where the partition has none.
unfoldable pub cursor_progress : String → Message → Option OrderBookDelta → StreamWriteProgress
cursor_progress id msg none = record {
  input_id = id;
  kafka_partition = msg.partition;
  durable_offset = msg.offset;
  last_raw_event_id = "";
  last_update_id = none;
  last_sequence = none;
}
cursor_progress id msg (some cursor) = record {
  input_id = id;
  kafka_partition = msg.partition;
  durable_offset = msg.offset;
  last_raw_event_id = cursor.raw_event_id;
  last_update_id = cursor.last_update_id;
  last_sequence = cursor.sequence;
}

abbrev pub cursor_of : InputWorker → ℕ → Option OrderBookDelta
cursor_of iw partition =
    if iw.input.stream_kind == StreamKind.order_book_delta
    then Map.lookup partition iw.last_delta_by_partition
    else none

unfoldable pub batch_of : InputWorker → List PendingRecord → Message → FactBatch
unfolding trades_of klines_of deltas_of cursor_progress input_id
batch_of iw records last = record {
  trades = trades_of records;
  klines = klines_of records;
  order_book_deltas = deltas_of records;
  progress = cursor_progress (input_id iw.input) last (cursor_of iw last.partition);
}

-- The event time of the last record that has one.
unfoldable pub last_event_time : List PendingRecord → Option Time
last_event_time [] = none
last_event_time (r ∷ rs) = elim (last_event_time rs) [
  | some t ↦ some t
  | none ↦ if r.event_time == pos 0 then none else some r.event_time
]

abbrev pub note : InputWorker → Effect → InputWorker
note iw effect = record iw { log = effect ∷ iw.log }

-- The order book hears of the deltas in their order.
unfoldable pub notify : InputWorker → List OrderBookDelta → InputWorker
notify iw [] = iw
notify iw (d ∷ ds) = notify (note iw (notified d)) ds

unfoldable pub notify_batch : InputWorker → List PendingRecord → InputWorker
unfolding notify deltas_of
notify_batch iw records =
    if iw.has_callback
    then (if iw.input.stream_kind == StreamKind.order_book_delta
        then notify iw (deltas_of records)
        else iw)
    else iw

-- What follows a commit that succeeded.
unfoldable pub after_commit : InputWorker → List PendingRecord → Message → Time → InputWorker
unfolding notify_batch last_event_time advance set_status
after_commit iw records last now =
    let durable = record (note iw (committed last.partition last.offset)) {
      durable_by_partition = Map.insert last.partition last.offset iw.durable_by_partition;
    } in
    set_status (advance (notify_batch durable records) last (last_event_time records) now)
      ActualStatus.running ""

-- The answers of the outside to one flush: of the database, of the broker, and the time.
pub record FlushAnswers : Type 0 where
  pub writes : List Attempt
  pub commits : List Attempt
  pub now : Time

abbrev pub commit_batch :
    InputWorker × Bool → List PendingRecord → Message → Time → InputWorker × Bool
commit_batch (iw, true) records last now = (after_commit iw records last now, true)
commit_batch (iw, false) records last now = (iw, false)

abbrev pub write_batch :
    InputWorker × Bool
    → FactBatch
    → List PendingRecord
    → Message
    → FlushAnswers
    → InputWorker × Bool
write_batch (iw, true) batch records last a =
    commit_batch (retry "commit: " (note iw (wrote batch records)) a.commits) records last a.now
write_batch (iw, false) batch records last a = (iw, false)

unfoldable pub flush_batch : InputWorker → List PendingRecord → FlushAnswers → InputWorker × Bool
unfolding retry batch_of after_commit
flush_batch iw [] a = (iw, true)
flush_batch iw (r ∷ rs) a =
    let last = (last_or r rs).msg in
    write_batch (retry "write: " iw a.writes) (batch_of iw (r ∷ rs) last) (r ∷ rs) last a
