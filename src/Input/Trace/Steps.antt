-- ===== src/Input/Trace/Steps.antt =====
-- Parts of a round of `consume`: what each adds to the trace, and which messages it covers.
use market_data_backend.Prelude.{
  ℕ_eq, String, Bool, true, false, List, [], ◌∷◌, ◌++◌ as append, ◌≡◌, refl, ◌⊎◌, inl, inr,
  Bool-cases, length, String_eq, ap,
}
use market_data_backend.Prelude.Int.{pos, leb_ℤ}
use market_data_backend.Model.{PoisonRecord}
use market_data_backend.Model.ActualStatus
use market_data_backend.Input.Config.{is_retryable_stage}
use market_data_backend.Input.Types.{Message, PendingRecord, poisoned, committed, InputWorker}
use market_data_backend.Input.Status.{set_status}
use market_data_backend.Input.Flush.{FlushAnswers, note, flush_batch}
use market_data_backend.Input.Consume.{
  Loop, Answer, done, refused, Answers, running, halted, message_text, poison_of, commit_poison,
  store_poison, reject, rejected, flushed, accept,
}
use market_data_backend.Input.Trace.{InRecords, Settled}
use market_data_backend.Input.Trace.Grow.{
  Grows, Grows-refl, Grows-trans, Grows-same, Grows-note, Settled-Extends,
}
use market_data_backend.Input.Trace.Flush.{IsOutcome, flush_batch-IsOutcome}

-- The message waits in the batch, or is in the database.
abbrev pub Covered : Message → List PendingRecord → InputWorker → Type 0
Covered m pending w = InRecords m pending ⊎ Settled m w.log

-- A part of a round that began at `v`: where the loop goes on, what `P` grants and `S` claims of a
-- message make it covered.
pub record IsStep (v : InputWorker) (P : Type 0) (S : Message → Type 0) (l : Loop) : Type 0 where
  pub grows : Grows v l.worker
  pub keeps : P → l.stopped ≡ false → (m : Message) → S m → Covered m l.pending l.worker

pub halted-IsStep :
    (v : InputWorker) (P : Type 0) (S : Message → Type 0) (w : InputWorker)
    (pending : List PendingRecord)
    → Grows v w
    → IsStep v P S (halted w pending)
halted-IsStep v P S w pending g = record { grows = g; keeps = λ _ e. absurd (cc e) }

pub running-IsStep :
    (v : InputWorker) (P : Type 0) (S : Message → Type 0) (w : InputWorker)
    (pending : List PendingRecord)
    → Grows v w
    → (P → (m : Message) → S m → Covered m pending w)
    → IsStep v P S (running w pending)
running-IsStep v P S w pending g k = record { grows = g; keeps = λ p _ m s. k p m s }

-- A step after growth, and from a claim that implies its own.
pub IsStep-after :
    (u v : InputWorker) (P : Type 0) (S T : Message → Type 0) (l : Loop)
    → Grows u v
    → ((m : Message) → T m → S m)
    → IsStep v P S l
    → IsStep u P T l
IsStep-after u v P S T l g i s = record {
  grows = Grows-trans g s.grows;
  keeps = λ p e m t. s.keeps p e m (i m t);
}

abbrev pub Handed : Message → InputWorker → Message → Type 0
Handed msg v m = (msg ≡ m) ⊎ Settled m v.log

commit_poison-Grows :
    (v : InputWorker) (msg : Message) (poison : PoisonRecord) (commit : Answer)
    → (poison.partition ≡ msg.partition) × (poison.offset ≡ msg.offset)
    → Grows v (commit_poison (note v (poisoned poison)) msg commit)
commit_poison-Grows v msg poison done at =
    let stored = note v (poisoned poison) in
    Grows-trans (Grows-note v (poisoned poison) tt)
      (Grows-note stored (committed msg.partition msg.offset) (inl at))
commit_poison-Grows v msg poison (refused e) at = Grows-note v (poisoned poison) tt

store_poison-Grows :
    (v : InputWorker) (msg : Message) (poison : PoisonRecord) (write commit : Answer)
    → (poison.partition ≡ msg.partition) × (poison.offset ≡ msg.offset)
    → Grows v (store_poison v msg poison write commit)
store_poison-Grows v msg poison done commit at = commit_poison-Grows v msg poison commit at
store_poison-Grows v msg poison (refused e) commit at = Grows-refl v

store_poison-Settled :
    (v : InputWorker) (msg m : Message) (poison : PoisonRecord) (write commit : Answer)
    → write ≡ done
    → (poison.partition ≡ m.partition) × (poison.offset ≡ m.offset)
    → Settled m (store_poison v msg poison write commit).log
store_poison-Settled v msg m poison done done _ at = inr (inl at)
store_poison-Settled v msg m poison done (refused e) _ at = inl at
store_poison-Settled v msg m poison (refused e) commit written at = absurd (cc written)

pub reject-IsStep :
    (v : InputWorker) (msg : Message) (stage message : String) (a : Answers)
    → IsStep v (a.poison_write ≡ done) (Handed msg v) (reject v msg stage message a)
unfolding reject poison_of set_status
reject-IsStep v msg stage message a = elim (Bool-cases (is_retryable_stage stage)) [
  | inl retryable ↦
      rw (retryable, reject) (halted-IsStep v (a.poison_write ≡ done) (Handed msg v) marked [] same)
  | inr rejected ↦
      rw (rejected, reject)
        (running-IsStep v (a.poison_write ≡ done) (Handed msg v)
          (store_poison marked msg poison a.poison_write a.poison_commit) []
          (Grows-trans same after) stored)
]
  where
    marked : InputWorker
    marked = set_status v ActualStatus.error (message_text stage message)

    poison : PoisonRecord
    poison = poison_of v msg stage message

    same : Grows v marked
    same = Grows-same v marked refl refl

    after : Grows marked (store_poison marked msg poison a.poison_write a.poison_commit)
    after = store_poison-Grows marked msg poison a.poison_write a.poison_commit (refl, refl)

    stored :
        a.poison_write ≡ done
        → (m : Message) → Handed msg v m
        → Covered m [] (store_poison marked msg poison a.poison_write a.poison_commit)
    stored p m (inl e) = inr (
        store_poison-Settled marked msg m poison a.poison_write a.poison_commit p
          (ap (λ (x : Message). x.partition) e, ap (λ (x : Message). x.offset) e))
    stored p m (inr s) = inr (Settled-Extends m after.extends s)

pub flushed-IsStep :
    (v : InputWorker) (rs : List PendingRecord) (r : InputWorker × Bool) (P : Type 0)
    → IsOutcome v rs r
    → IsStep v P (λ m. Covered m rs v) (flushed r rs)
flushed-IsStep v rs (w, false) P o = halted-IsStep v P _ w rs o.grows
flushed-IsStep v rs (w, true) P o = running-IsStep v P _ w [] o.grows λ _ m c. elim c [
  | inl inside ↦ inr (o.settles refl m inside)
  | inr settled ↦ inr (Settled-Extends m o.grows.extends settled)
]

pub rejected-IsStep :
    (v : InputWorker) (pending : List PendingRecord) (r : InputWorker × Bool) (msg : Message)
    (stage message : String) (a : Answers)
    → IsOutcome v pending r
    → IsStep v
        (a.poison_write ≡ done)
        (λ m. (msg ≡ m) ⊎ Covered m pending v)
        (rejected r pending msg stage message a)
rejected-IsStep v pending (w, false) msg stage message a o =
    halted-IsStep v (a.poison_write ≡ done) _ w pending o.grows
rejected-IsStep v pending (w, true) msg stage message a o =
    IsStep-after v w (a.poison_write ≡ done) (Handed msg w) _ (reject w msg stage message a) o.grows
      (λ m c. elim c [
        | inl e ↦ inl e
        | inr (inl inside) ↦ inr (o.settles refl m inside)
        | inr (inr settled) ↦ inr (Settled-Extends m o.grows.extends settled)
      ])
      (reject-IsStep w msg stage message a)

InRecords-append :
    (m : Message) (rs : List PendingRecord) (r : PendingRecord)
    → (r.msg ≡ m) ⊎ InRecords m rs
    → InRecords m (append rs (r ∷ []))
InRecords-append m [] r h = h
InRecords-append m (x ∷ rs) r (inl e) = inr (InRecords-append m rs r (inl e))
InRecords-append m (x ∷ rs) r (inr (inl e)) = inl e
InRecords-append m (x ∷ rs) r (inr (inr inside)) = inr (InRecords-append m rs r (inr inside))

joined :
    (v : InputWorker) (pending : List PendingRecord) (r : PendingRecord) (m : Message)
    → (r.msg ≡ m) ⊎ Covered m pending v
    → Covered m (append pending (r ∷ [])) v
joined v pending r m (inl e) = inl (InRecords-append m pending r (inl e))
joined v pending r m (inr (inl inside)) = inl (InRecords-append m pending r (inr inside))
joined v pending r m (inr (inr settled)) = inr settled

pub accept-IsStep :
    (v : InputWorker) (P : Type 0) (pending : List PendingRecord) (r : PendingRecord)
    (a : FlushAnswers)
    → IsStep v P (λ m. (r.msg ≡ m) ⊎ Covered m pending v) (accept v pending r a)
unfolding accept
accept-IsStep v P pending r a =
    let batch = append pending (r ∷ []) in
    elim (Bool-cases (leb_ℤ v.batch.size (pos (length batch)))) [
      | inl full ↦
          rw (full, accept)
            (IsStep-after v v P (λ m. Covered m batch v) _ (flushed (flush_batch v batch a) batch)
              (Grows-refl v) (joined v pending r)
              (flushed-IsStep v batch (flush_batch v batch a) P (flush_batch-IsOutcome v batch a)))
      | inr room ↦
          rw (room, accept) (running-IsStep v P _ v batch (Grows-refl v) (λ _. joined v pending r))
    ]
