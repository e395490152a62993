-- ===== src/Input/Consume.antt =====
-- internal/runtime/input_worker.go: the loop of `consume`. Each round is one answer of `fetch`, with
-- the answers of the database and the broker to the calls that the round makes.
use Prim.Native.String.{◌++◌}
use market_data_backend.Prelude.{
  String, Bool, true, false, List, [], ◌∷◌, ◌++◌ as append, ◌==◌, ℕ_eq, if◌then◌else◌, length,
}
use market_data_backend.Prelude.Int.{pos, leb_ℤ}
use market_data_backend.Model.{PoisonRecord}
use market_data_backend.Model.ActualStatus
use market_data_backend.Input.Config.{input_id, is_retryable_stage}
use market_data_backend.Input.Types.{
  Message, Builders, PendingRecord, poisoned, committed, InputWorker,
}
use market_data_backend.Input.Status.{set_status}
use market_data_backend.Input.Prepare.{
  LoadAttempt, ensure_progress, Prepared, prepared, failed, prepare,
}
use market_data_backend.Input.Flush.{FlushAnswers, note, flush_batch}

pub record Loop : Type 0 where
  pub worker : InputWorker
  pub pending : List PendingRecord
  pub stopped : Bool

-- One call that is not retried.
pub data Answer : Type 0 where
  done : Answer
  refused : String → Answer

-- `switch` answers the flush on a change of partition, `early` the flush before a bad message,
-- `full` the flush of a full batch.
pub record Answers : Type 0 where
  pub switch : FlushAnswers
  pub loads : List LoadAttempt
  pub early : FlushAnswers
  pub full : FlushAnswers
  pub poison_write : Answer
  pub poison_commit : Answer

pub data Round : Type 0 where
  fetched : Message → Answers → Round
  deadline : String → FlushAnswers → Round
  fetch_failed : String → Round
  fetch_cancelled : Round

abbrev pub running : InputWorker → List PendingRecord → Loop
running iw pending = record { worker = iw; pending = pending; stopped = false }

-- `return`: the records that are still pending stay as they are.
abbrev pub halted : InputWorker → List PendingRecord → Loop
halted iw pending = record { worker = iw; pending = pending; stopped = true }

abbrev pub message_text : String → String → String
message_text stage message = stage ++ (": " ++ message)

unfoldable pub poison_of : InputWorker → Message → String → String → PoisonRecord
unfolding input_id
poison_of iw msg stage message = record {
  input_id = input_id iw.input;
  group_id = iw.group.group_id;
  stream_kind = iw.input.stream_kind;
  topic = "";
  partition = msg.partition;
  offset = msg.offset;
  error_message = message_text stage message;
  raw_payload = msg.value;
}

abbrev pub commit_poison : InputWorker → Message → Answer → InputWorker
commit_poison iw msg done = note iw (committed msg.partition msg.offset)
commit_poison iw msg (refused e) = iw

-- The write of the poison record, and on success the commit of its offset.
abbrev pub store_poison : InputWorker → Message → PoisonRecord → Answer → Answer → InputWorker
store_poison iw msg poison done commit = commit_poison (note iw (poisoned poison)) msg commit
store_poison iw msg poison (refused e) commit = iw

-- A message that failed to decode, after the batch before it was flushed.
unfoldable pub reject : InputWorker → Message → String → String → Answers → Loop
unfolding set_status poison_of is_retryable_stage
reject iw msg stage message a =
    let marked = set_status iw ActualStatus.error (message_text stage message) in
    if is_retryable_stage stage
    then halted marked []
    else running
        (store_poison marked msg (poison_of iw msg stage message) a.poison_write a.poison_commit) []

abbrev pub rejected :
    InputWorker × Bool → List PendingRecord → Message → String → String → Answers → Loop
rejected (iw, true) pending msg stage message a = reject iw msg stage message a
rejected (iw, false) pending msg stage message a = halted iw pending

abbrev pub flushed : InputWorker × Bool → List PendingRecord → Loop
flushed (iw, true) pending = running iw []
flushed (iw, false) pending = halted iw pending

-- The new record joins the batch, which is flushed when it is full.
unfoldable pub accept : InputWorker → List PendingRecord → PendingRecord → FlushAnswers → Loop
unfolding flush_batch
accept iw pending r a =
    let batch = append pending (r ∷ []) in
    if leb_ℤ iw.batch.size (pos (length batch))
    then flushed (flush_batch iw batch a) batch
    else running iw batch

abbrev pub on_prepared : InputWorker × Prepared → List PendingRecord → Message → Answers → Loop
on_prepared (iw, prepared r) pending msg a = accept iw pending r a.full
on_prepared (iw, failed stage message) pending msg a =
    rejected (flush_batch iw pending a.early) pending msg stage message a

abbrev pub on_progress :
    Builders → InputWorker × Bool → List PendingRecord → Message → Answers → Loop
on_progress b (iw, true) pending msg a = on_prepared (prepare b iw msg) pending msg a
on_progress b (iw, false) pending msg a = halted iw pending

-- A message once no batch of another partition is pending.
unfoldable pub take_message : Builders → InputWorker → List PendingRecord → Message → Answers → Loop
unfolding ensure_progress prepare accept reject
take_message b iw pending msg a =
    on_progress b (ensure_progress iw msg.partition a.loads) pending msg a

abbrev pub switched : Builders → InputWorker × Bool → List PendingRecord → Message → Answers → Loop
switched b (iw, true) pending msg a = take_message b iw [] msg a
switched b (iw, false) pending msg a = halted iw pending

unfoldable pub on_message : Builders → InputWorker → List PendingRecord → Message → Answers → Loop
unfolding take_message
on_message b iw [] msg a = take_message b iw [] msg a
on_message b iw (r ∷ rs) msg a =
    if r.msg.partition == msg.partition
    then take_message b iw (r ∷ rs) msg a
    else switched b (flush_batch iw (r ∷ rs) a.switch) (r ∷ rs) msg a

abbrev pub fetch_error : InputWorker → List PendingRecord → String → Loop
fetch_error iw pending e = running (set_status iw ActualStatus.error ("fetch: " ++ e)) pending

abbrev pub on_deadline : InputWorker × Bool → List PendingRecord → Loop
on_deadline (iw, true) pending = running iw []
on_deadline (iw, false) pending = running iw pending

unfoldable pub deadline_round : InputWorker → List PendingRecord → String → FlushAnswers → Loop
unfolding set_status flush_batch
deadline_round iw [] e a = fetch_error iw [] e
deadline_round iw (r ∷ rs) e a = on_deadline (flush_batch iw (r ∷ rs) a) (r ∷ rs)

unfoldable pub round : Builders → InputWorker → List PendingRecord → Round → Loop
unfolding set_status on_message deadline_round
round b iw pending (fetched msg a) = on_message b iw pending msg a
round b iw pending (deadline e a) = deadline_round iw pending e a
round b iw pending (fetch_failed e) = fetch_error iw pending e
round b iw pending fetch_cancelled = halted iw pending

-- The loop over the answers of `fetch`; after `return` nothing more is fetched.
unfoldable pub consume : Builders → Loop → List Round → Loop
unfolding round
consume b l [] = l
consume b l (answer ∷ answers) = elim l.stopped [
  | true ↦ l
  | false ↦ consume b (round b l.worker l.pending answer) answers
]

-- The deferred call: on a graceful stop the pending batch is flushed.
unfoldable pub finish : Loop → FlushAnswers → Loop
unfolding flush_batch
finish l a =
    if l.worker.flush_on_stop then record l { worker = (flush_batch l.worker l.pending a).0 } else l
