-- ===== src/Input/Trace/Flush.antt =====
-- `flushBatch` writes all facts of a batch before it commits, and settles its messages.
use market_data_backend.Prelude.{
  ℕ_eq, ℕ, String, Bool, true, false, List, [], ◌∷◌, Option, none, some, ◌≡◌, refl, inl, inr,
  last_or,
}
use market_data_backend.Prelude.Map
use market_data_backend.Prelude.Int.{ℤ}
use market_data_backend.Model.{Time}
use market_data_backend.Input.Config.{input_id}
use market_data_backend.Input.Types.{
  Message, PendingRecord, FactBatch, Effect, wrote, committed, InputWorker,
}
use market_data_backend.Input.Status.{advance, set_status}
use market_data_backend.Input.Flush.{
  retry, note, batch_of, cursor_progress, cursor_of, notify_batch, after_commit, FlushAnswers,
  commit_batch, write_batch, flush_batch,
}
use market_data_backend.Input.Trace.{IsBatch, Backed, InRecords, Settled}
use market_data_backend.Input.Trace.Grow.{
  Extends, here, more, Grows, Grows-refl, Grows-trans, Grows-same, Grows-note, Settled-Extends,
  retry-Grows, notify_batch-Grows,
}

batch_of-IsBatch :
    (v : InputWorker) (rs : List PendingRecord) (last : Message) → IsBatch (batch_of v rs last) rs
unfolding batch_of
batch_of-IsBatch v rs last = record { all_trades = refl; all_klines = refl; all_deltas = refl }

cursor_progress-Backs :
    (id : String) (last : Message) (cursor : Option _)
    → ((cursor_progress id last cursor).kafka_partition ≡ last.partition)
      × ((cursor_progress id last cursor).durable_offset ≡ last.offset)
unfolding cursor_progress
cursor_progress-Backs id last none = (refl, refl)
cursor_progress-Backs id last (some cursor) = (refl, refl)

after_commit-Grows :
    (v : InputWorker) (rs : List PendingRecord) (last : Message) (now : Time)
    → Backed last.partition last.offset v.log
    → Grows v (after_commit v rs last now)
unfolding after_commit advance set_status
after_commit-Grows v rs last now b =
    let noted = note v (committed last.partition last.offset) in
    let durable = record noted {
      durable_by_partition = Map.insert last.partition last.offset v.durable_by_partition;
    } in
    let told = notify_batch durable rs in
    Grows-trans (Grows-note v (committed last.partition last.offset) b) (
      Grows-trans (Grows-same noted durable refl refl) (
        Grows-trans (notify_batch-Grows durable rs)
          (Grows-same told (after_commit v rs last now) refl refl)))

-- What a flush of `rs` that began at `v` came to: its trace, and on success all its messages settled.
pub record IsOutcome (v : InputWorker) (rs : List PendingRecord) (r : InputWorker × Bool)
    : Type 0 where
  pub grows : Grows v r.0
  pub settles : r.1 ≡ true → (m : Message) → InRecords m rs → Settled m r.0.log

stopped-IsOutcome :
    (v : InputWorker) (rs : List PendingRecord) (w : InputWorker)
    → Grows v w
    → IsOutcome v rs (w, false)
stopped-IsOutcome v rs w g = record { grows = g; settles = λ e. absurd (cc e) }

commit_batch-IsOutcome :
    (v : InputWorker) (rs : List PendingRecord) (last : Message) (now : Time)
    (r : InputWorker × Bool)
    → Grows v r.0
    → Backed last.partition last.offset r.0.log
    → ((m : Message) → InRecords m rs → Settled m r.0.log)
    → IsOutcome v rs (commit_batch r rs last now)
commit_batch-IsOutcome v rs last now (w, false) g b s = stopped-IsOutcome v rs w g
commit_batch-IsOutcome v rs last now (w, true) g b s =
    let after = after_commit-Grows w rs last now b in
    record {
      grows = Grows-trans g after;
      settles = λ _ m inside. Settled-Extends m after.extends (s m inside);
    }

Backed-Extends : (p : ℕ) (o : ℤ) {a b : List Effect} → Extends a b → Backed p o a → Backed p o b
Backed-Extends p o here s = s
Backed-Extends p o (more effect q) s = inr (Backed-Extends p o q s)

write_batch-IsOutcome :
    (v : InputWorker) (batch : FactBatch) (rs : List PendingRecord) (last : Message)
    (a : FlushAnswers) (r : InputWorker × Bool)
    → Grows v r.0
    → IsBatch batch rs
    → (batch.progress.kafka_partition ≡ last.partition)
      × (batch.progress.durable_offset ≡ last.offset)
    → IsOutcome v rs (write_batch r batch rs last a)
write_batch-IsOutcome v batch rs last a (w, false) g whole at = stopped-IsOutcome v rs w g
write_batch-IsOutcome v batch rs last a (w, true) g whole at =
    let stored = note w (wrote batch rs) in
    let tried = retry-Grows "commit: " stored a.commits in
    commit_batch-IsOutcome v rs last a.now (retry "commit: " stored a.commits)
      (Grows-trans g (Grows-trans (Grows-note w (wrote batch rs) whole) tried))
      (Backed-Extends last.partition last.offset tried.extends (inl at))
      (λ m inside. Settled-Extends m tried.extends (inl inside))

pub flush_batch-IsOutcome :
    (v : InputWorker) (rs : List PendingRecord) (a : FlushAnswers)
    → IsOutcome v rs (flush_batch v rs a)
unfolding flush_batch
flush_batch-IsOutcome v [] a = record {
  grows = Grows-refl v;
  settles = λ _ m inside. absurd inside;
}
flush_batch-IsOutcome v (r ∷ rs) a =
    let last = (last_or r rs).msg in
    write_batch-IsOutcome v (batch_of v (r ∷ rs) last) (r ∷ rs) last a (retry "write: " v a.writes)
      (retry-Grows "write: " v a.writes) (batch_of-IsBatch v (r ∷ rs) last)
      (unfold batch_of in
        cursor_progress-Backs (input_id v.input) last (cursor_of v last.partition))
