-- ===== src/Snapshot.antt =====
-- internal/runtime/snapshot_input_worker.go with `snapshotReceiveLoop` of worker.go: reference
-- snapshots go from the broker over a channel to the order book, and their offsets are committed. The
-- two goroutines are one system; a step is what one of them does without the other between. `log`
-- lists what became of the snapshots, the newest first.
pub mod Order
pub mod Blocked
use market_data_backend.Prelude.{
  ℕ, ◌+◌, ◌<◌, String, Bool, true, false, List, [], ◌∷◌, Option, none, some, Result, ok, err, ◌++◌,
  ◌≡◌, contains, length, ℕ_eq,
}
use market_data_backend.Prelude.Text.{prefixed}
use market_data_backend.Prelude.Int.{ℤ}
use market_data_backend.Model.{Time, GroupInput, OrderBookSnapshot}
use market_data_backend.Model.ActualStatus
use market_data_backend.Numeric.{BigFloat}
use market_data_backend.Input.Types.{Message}
use market_data_backend.Decode.Book.{OrderBookSnapshotMessage, build_order_book_snapshot}
use market_data_backend.OrderBook.State.{OrderBookState, BookError, apply_snapshot}

-- What a worker is made with.
pub record SnapshotInput : Type 1 where
  pub big : BigFloat
  pub decode : List ℕ → Result String OrderBookSnapshotMessage
  pub input : GroupInput

-- `snapshotResult` with the message it is from; `id` stands for its `done` channel.
pub record Delivery : Type 0 where
  pub id : ℕ
  pub message : Message
  pub snapshot : OrderBookSnapshot

-- Where the consume loop is.
pub data Phase : Type 0 where
  fetching : Phase
  backing_off : Phase
  sending : Delivery → Phase
  waiting : Delivery → Phase
  committing : Delivery → Phase
  exited : Phase

pub data SnapshotEvent : Type 0 where
  applied : Delivery → SnapshotEvent
  rejected : Delivery → SnapshotEvent
  committed : Delivery → SnapshotEvent

pub record System : Type 0 where
  pub phase : Phase
  pub status : String
  pub last_err : String
  pub committed_offset : Option ℤ
  pub last_event : Option Time
  pub next_id : ℕ
  pub channel : List Delivery
  pub closed : List ℕ
  pub receiving : Bool
  pub book : OrderBookState
  pub log : List SnapshotEvent

unfoldable pub new_system : OrderBookState → System
new_system book = record {
  phase = fetching;
  status = ActualStatus.running;
  last_err = "";
  committed_offset = none;
  last_event = none;
  next_id = 0;
  channel = [];
  closed = [];
  receiving = true;
  book = book;
  log = [];
}

-- `make(chan snapshotResult, 8)` in worker.go.
abbrev pub channel_size : ℕ
channel_size = 8

-- `setStatus` to an error, with the sleep that follows it.
abbrev pub back_off : System → String → System
back_off s message = record s {
  phase = backing_off;
  status = ActualStatus.error;
  last_err = message;
}

unfoldable pub handle_message : SnapshotInput → System → Message → System
handle_message w s msg = elim (build_order_book_snapshot w.big w.decode w.input msg) [
  | err e ↦ back_off s (prefixed "decode: " e)
  | ok snap ↦ record s {
    phase = sending (record { id = s.next_id; message = msg; snapshot = snap });
    last_event = some snap.snapshot_time;
    next_id = s.next_id + 1;
  }
]

-- The offset is committed.
abbrev pub commit : System → Delivery → System
commit s d = record s {
  phase = fetching;
  committed_offset = some d.message.offset;
  log = committed d ∷ s.log;
}

-- What `snapshotReceiveLoop` does with a delivery, once it has tried to apply it.
abbrev pub answer : System → Delivery → OrderBookState × Option BookError → System
answer s d (book, none) = record s {
  book = book;
  closed = d.id ∷ s.closed;
  log = applied d ∷ s.log;
}
answer s d (book, some e) = record s { book = book; log = rejected d ∷ s.log }

unfoldable pub receive : SnapshotInput → System → Delivery → System
receive w s d = answer s d (apply_snapshot w.big s.book d.snapshot)

-- One step of the system. A fetch that times out changes nothing and is no step. Deltas, gaps and
-- restarts change the book between the steps in any way.
pub data Step (w : SnapshotInput) (s : System) : System → Type 0 where
  fetched : (msg : Message) → s.phase ≡ fetching → Step w s (handle_message w s msg)
  fetch_failed : (e : String) → s.phase ≡ fetching → Step w s (back_off s (prefixed "fetch: " e))
  rested : s.phase ≡ backing_off → Step w s (record s { phase = fetching })
  sent :
      (d : Delivery)
      → s.phase ≡ sending d
      → length s.channel < channel_size
      → Step w s (record s { phase = waiting d; channel = s.channel ++ (d ∷ []) })
  acknowledged :
      (d : Delivery)
      → s.phase ≡ waiting d
      → contains d.id s.closed ≡ true
      → Step w s (record s { phase = committing d })
  commit_done : (d : Delivery) → s.phase ≡ committing d → Step w s (commit s d)
  commit_failed :
      (d : Delivery) (e : String)
      → s.phase ≡ committing d
      → Step w s (back_off s (prefixed "commit: " e))
  cancelled : Step w s (record s { phase = exited })
  received :
      (d : Delivery) (rest : List Delivery)
      → s.receiving ≡ true
      → s.channel ≡ d ∷ rest
      → Step w s (receive w (record s { channel = rest }) d)
  loop_stopped : Step w s (record s { receiving = false })
  book_changed : (book : OrderBookState) → Step w s (record s { book = book })

-- What a system can come to from another.
pub data Steps (w : SnapshotInput) (s : System) : System → Type 0 where
  here : Steps w s s
  later : {t u : System} → Steps w s t → Step w t u → Steps w s u
