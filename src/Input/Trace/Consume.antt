-- ===== src/Input/Trace/Consume.antt =====
-- `consume` settles what it fetches: every message is pending, in the database, or in a poison
-- record, and a commit only follows the write of its offset.
use market_data_backend.Prelude.{
  ℕ_eq, String, Bool, true, false, List, [], ◌∷◌, ◌≡◌, refl, ◌∙◌, ◌⊎◌, inl, inr, Bool-cases, ◌==◌,
}
use market_data_backend.Input.Types.{Message, Builders, PendingRecord, InputWorker}
use market_data_backend.Input.Status.{set_status}
use market_data_backend.Input.Prepare.{Prepared, prepared, failed, ensure_progress, prepare}
use market_data_backend.Input.Flush.{FlushAnswers, flush_batch}
use market_data_backend.Input.Consume.{
  Loop, done, Answers, Round, fetched, deadline, fetch_failed, fetch_cancelled, on_prepared,
  on_progress, take_message, switched, on_message, fetch_error, on_deadline, deadline_round, round,
  consume, finish,
}
use market_data_backend.Input.Trace.{IsJustified}
use market_data_backend.Input.Trace.Grow.{
  Grows, Grows-refl, Grows-trans, Grows-same, Settled-Extends,
}
use market_data_backend.Input.Trace.Flush.{IsOutcome, flush_batch-IsOutcome}
use market_data_backend.Input.Trace.Prepare.{ensure_progress-Grows, IsReady, prepare-IsReady}
use market_data_backend.Input.Trace.Steps.{
  Covered, IsStep, halted-IsStep, running-IsStep, IsStep-after, rejected-IsStep, accept-IsStep,
}

-- The message is the one in hand, or covered already.
abbrev Taken : Message → List PendingRecord → InputWorker → Message → Type 0
Taken msg pending v m = (msg ≡ m) ⊎ Covered m pending v

Taken-Grows :
    (msg m : Message) (pending : List PendingRecord) (v w : InputWorker)
    → Grows v w
    → Taken msg pending v m
    → Taken msg pending w m
Taken-Grows msg m pending v w g (inl e) = inl e
Taken-Grows msg m pending v w g (inr (inl inside)) = inr (inl inside)
Taken-Grows msg m pending v w g (inr (inr s)) = inr (inr (Settled-Extends m g.extends s))

on_prepared-IsStep :
    (v : InputWorker) (pending : List PendingRecord) (msg : Message) (r : InputWorker × Prepared)
    (a : Answers)
    → IsReady v msg r
    → IsStep v (a.poison_write ≡ done) (Taken msg pending v) (on_prepared r pending msg a)
on_prepared-IsStep v pending msg (w, prepared r) a ready =
    IsStep-after v w (a.poison_write ≡ done) (Taken r.msg pending w) (Taken msg pending v) _
      ready.grows
      (λ m t. elim (Taken-Grows msg m pending v w ready.grows t) [
        | inl e ↦ inl (ready.stands ∙ e)
        | inr c ↦ inr c
      ])
      (accept-IsStep w (a.poison_write ≡ done) pending r a.full)
on_prepared-IsStep v pending msg (w, failed stage message) a ready =
    IsStep-after v w (a.poison_write ≡ done) (Taken msg pending w) (Taken msg pending v) _
      ready.grows (λ m. Taken-Grows msg m pending v w ready.grows)
      (rejected-IsStep w pending (flush_batch w pending a.early) msg stage message a
        (flush_batch-IsOutcome w pending a.early))

on_progress-IsStep :
    (b : Builders) (v : InputWorker) (pending : List PendingRecord) (msg : Message)
    (r : InputWorker × Bool) (a : Answers)
    → Grows v r.0
    → IsStep v (a.poison_write ≡ done) (Taken msg pending v) (on_progress b r pending msg a)
on_progress-IsStep b v pending msg (w, true) a g =
    IsStep-after v w (a.poison_write ≡ done) (Taken msg pending w) (Taken msg pending v) _ g
      (λ m. Taken-Grows msg m pending v w g)
      (on_prepared-IsStep w pending msg (prepare b w msg) a (prepare-IsReady b w msg))
on_progress-IsStep b v pending msg (w, false) a g =
    halted-IsStep v (a.poison_write ≡ done) (Taken msg pending v) w pending g

take_message-IsStep :
    (b : Builders) (v : InputWorker) (pending : List PendingRecord) (msg : Message) (a : Answers)
    → IsStep v (a.poison_write ≡ done) (Taken msg pending v) (take_message b v pending msg a)
unfolding take_message
take_message-IsStep b v pending msg a =
    on_progress-IsStep b v pending msg (ensure_progress v msg.partition a.loads) a
      (ensure_progress-Grows v msg.partition a.loads)

switched-IsStep :
    (b : Builders) (v : InputWorker) (pending : List PendingRecord) (msg : Message)
    (r : InputWorker × Bool) (a : Answers)
    → IsOutcome v pending r
    → IsStep v (a.poison_write ≡ done) (Taken msg pending v) (switched b r pending msg a)
switched-IsStep b v pending msg (w, false) a o =
    halted-IsStep v (a.poison_write ≡ done) (Taken msg pending v) w pending o.grows
switched-IsStep b v pending msg (w, true) a o =
    IsStep-after v w (a.poison_write ≡ done) (Taken msg [] w) (Taken msg pending v) _ o.grows
      (λ m t. elim (Taken-Grows msg m pending v w o.grows t) [
        | inl e ↦ inl e
        | inr (inl inside) ↦ inr (inr (o.settles refl m inside))
        | inr (inr s) ↦ inr (inr s)
      ])
      (take_message-IsStep b w [] msg a)

on_message-IsStep :
    (b : Builders) (v : InputWorker) (pending : List PendingRecord) (msg : Message) (a : Answers)
    → IsStep v (a.poison_write ≡ done) (Taken msg pending v) (on_message b v pending msg a)
unfolding on_message
on_message-IsStep b v [] msg a = take_message-IsStep b v [] msg a
on_message-IsStep b v (r ∷ rs) msg a = elim (Bool-cases (r.msg.partition == msg.partition)) [
  | inl same ↦ rw same (take_message-IsStep b v (r ∷ rs) msg a)
  | inr other ↦ rw other (
      switched-IsStep b v (r ∷ rs) msg (flush_batch v (r ∷ rs) a.switch) a
        (flush_batch-IsOutcome v (r ∷ rs) a.switch))
]

fetch_error-IsStep :
    (v : InputWorker) (P : Type 0) (pending : List PendingRecord) (e : String)
    → IsStep v P (λ m. Covered m pending v) (fetch_error v pending e)
unfolding set_status
fetch_error-IsStep v P pending e =
    running-IsStep v P (λ m. Covered m pending v) _ pending (Grows-same v _ refl refl) (λ _ m c. c)

on_deadline-IsStep :
    (v : InputWorker) (P : Type 0) (pending : List PendingRecord) (r : InputWorker × Bool)
    → IsOutcome v pending r
    → IsStep v P (λ m. Covered m pending v) (on_deadline r pending)
on_deadline-IsStep v P pending (w, true) o = running-IsStep v P _ w [] o.grows λ _ m c. elim c [
  | inl inside ↦ inr (o.settles refl m inside)
  | inr s ↦ inr (Settled-Extends m o.grows.extends s)
]
on_deadline-IsStep v P pending (w, false) o =
    running-IsStep v P _ w pending o.grows λ _ m c. elim c [
      | inl inside ↦ inl inside
      | inr s ↦ inr (Settled-Extends m o.grows.extends s)
    ]

deadline_round-IsStep :
    (v : InputWorker) (P : Type 0) (pending : List PendingRecord) (e : String) (a : FlushAnswers)
    → IsStep v P (λ m. Covered m pending v) (deadline_round v pending e a)
unfolding deadline_round
deadline_round-IsStep v P [] e a = fetch_error-IsStep v P [] e
deadline_round-IsStep v P (r ∷ rs) e a =
    on_deadline-IsStep v P (r ∷ rs) (flush_batch v (r ∷ rs) a) (flush_batch-IsOutcome v (r ∷ rs) a)

drop_left : {A : Type 0} → ⊥ ⊎ A → A
drop_left (inl nothing) = absurd nothing
drop_left (inr x) = x

-- The round fetched the message.
abbrev pub Fetches : Message → Round → Type 0
Fetches m (fetched msg a) = msg ≡ m
Fetches m (deadline e a) = ⊥
Fetches m (fetch_failed e) = ⊥
Fetches m fetch_cancelled = ⊥

-- The round stores its message as a poison record, if it has to.
abbrev pub StoresPoison : Round → Type 0
StoresPoison (fetched msg a) = a.poison_write ≡ done
StoresPoison (deadline e a) = Unit
StoresPoison (fetch_failed e) = Unit
StoresPoison fetch_cancelled = Unit

abbrev pub Fetched : Message → List Round → Type 0
Fetched m [] = ⊥
Fetched m (r ∷ rs) = Fetches m r ⊎ Fetched m rs

abbrev pub AllStorePoison : List Round → Type 0
AllStorePoison [] = Unit
AllStorePoison (r ∷ rs) = StoresPoison r × AllStorePoison rs

round-IsStep :
    (b : Builders) (v : InputWorker) (pending : List PendingRecord) (r : Round)
    → IsStep v (StoresPoison r) (λ m. Fetches m r ⊎ Covered m pending v) (round b v pending r)
unfolding round
round-IsStep b v pending (fetched msg a) = on_message-IsStep b v pending msg a
round-IsStep b v pending (deadline e a) =
    IsStep-after v v Unit (λ m. Covered m pending v) _ (deadline_round v pending e a) (Grows-refl v)
      (λ m. drop_left) (deadline_round-IsStep v Unit pending e a)
round-IsStep b v pending (fetch_failed e) =
    IsStep-after v v Unit (λ m. Covered m pending v) _ (fetch_error v pending e) (Grows-refl v)
      (λ m. drop_left) (fetch_error-IsStep v Unit pending e)
round-IsStep b v pending fetch_cancelled =
    halted-IsStep v Unit (λ m. ⊥ ⊎ Covered m pending v) v pending (Grows-refl v)

consume-Grows :
    (b : Builders) (l : Loop) (rounds : List Round) → Grows l.worker (consume b l rounds).worker
unfolding consume
consume-Grows b l [] = Grows-refl l.worker
consume-Grows b l (r ∷ rs) = elim (Bool-cases l.stopped) [
  | inl stopped ↦ rw stopped (Grows-refl l.worker)
  | inr goes_on ↦ rw goes_on (
      Grows-trans (round-IsStep b l.worker l.pending r).grows
        (consume-Grows b (round b l.worker l.pending r) rs))
]

-- Whatever is fetched and whatever the database and the broker answer, the loop and the flush of a
-- graceful stop keep the trace justified: an offset is committed only after the database holds a
-- batch whose progress is that very offset of that partition, or a poison record of it, and every
-- batch in the database holds all trades, bars and deltas of its records, in their order.
pub finish-IsJustified :
    (b : Builders) (l : Loop) (rounds : List Round) (a : FlushAnswers)
    → IsJustified l.worker.log
    → IsJustified (finish (consume b l rounds) a).worker.log
unfolding finish
finish-IsJustified b l rounds a h =
    let stopped = consume b l rounds in
    let kept = (consume-Grows b l rounds).justified h in
    elim (Bool-cases stopped.worker.flush_on_stop) [
      | inl flushes ↦
          rw flushes ((flush_batch-IsOutcome stopped.worker stopped.pending a).grows.justified kept)
      | inr leaves ↦ rw leaves kept
    ]

consume-goes_on :
    (b : Builders) (l : Loop) (rounds : List Round)
    → (consume b l rounds).stopped ≡ false
    → l.stopped ≡ false
unfolding consume
consume-goes_on b l [] goes = goes
consume-goes_on b l (r ∷ rs) goes = elim (Bool-cases l.stopped) [
  | inl stopped ↦ stays stopped goes
  | inr running_ ↦ running_
]
  where
    stays : l.stopped ≡ true → (consume b l (r ∷ rs)).stopped ≡ false → l.stopped ≡ false
    stays e = rw e (λ h. absurd (cc h))

covered :
    (b : Builders) (w : InputWorker) (pending : List PendingRecord) (stopped : Bool)
    (rounds : List Round)
    → AllStorePoison rounds
    → (consume b (record { worker = w; pending = pending; stopped = stopped }) rounds).stopped
      ≡ false
    → (m : Message) → Fetched m rounds ⊎ Covered m pending w
    → Covered m
        (consume b (record { worker = w; pending = pending; stopped = stopped }) rounds).pending
        (consume b (record { worker = w; pending = pending; stopped = stopped }) rounds).worker
unfolding consume
covered b w pending stopped [] stores goes m f = drop_left f
covered b w pending true (r ∷ rs) stores goes m f = absurd (cc goes)
covered b w pending false (r ∷ rs) (now, later) goes m f =
    let l = round b w pending r in
    covered b l.worker l.pending l.stopped rs later goes m (elim f [
      | inl (inl now_) ↦ inr (keep m (inl now_))
      | inl (inr later_) ↦ inl later_
      | inr c ↦ inr (keep m (inr c))
    ])
  where
    keep :
        (m : Message)
        → Fetches m r ⊎ Covered m pending w
        → Covered m (round b w pending r).pending (round b w pending r).worker
    keep m =
        (round-IsStep b w pending r).keeps now (consume-goes_on b (round b w pending r) rs goes) m

-- No message is lost while the loop goes on, provided that every poison record that has to be
-- written is written: what was fetched waits in the batch, or its record is in a batch in the
-- database, or a poison record of its partition and offset is; what was covered before stays so.
pub consume-Covered :
    (b : Builders) (l : Loop) (rounds : List Round)
    → AllStorePoison rounds
    → (consume b l rounds).stopped ≡ false
    → (m : Message) → Fetched m rounds ⊎ Covered m l.pending l.worker
    → Covered m (consume b l rounds).pending (consume b l rounds).worker
consume-Covered b l rounds stores goes m f =
    covered b l.worker l.pending l.stopped rounds stores goes m f
