-- ===== src/Snapshot/Blocked.antt =====
-- After a snapshot that the order book refuses, the worker only waits.
use market_data_backend.Prelude.{
  false, List, [], ◌∷◌, some, ◌≡◌, refl, sym, ◌∙◌, ◌⊎◌, inl, inr, contains, ℕ_eq,
}
use market_data_backend.OrderBook.State.{OrderBookState, BookError, apply_snapshot}
use market_data_backend.Snapshot.{
  SnapshotInput, Delivery, Phase, fetching, backing_off, sending, waiting, committing, exited,
  SnapshotEvent, rejected, System, receive, Step, fetched, fetch_failed, rested, sent, acknowledged,
  commit_done, commit_failed, cancelled, received, loop_stopped, book_changed, Steps, here, later,
}

-- The worker waits for an answer that nobody will give, or it is gone.
record IsBlocked (d : Delivery) (log : List SnapshotEvent) (s : System) : Type 0 where
  waits : s.phase ≡ waiting d ⊎ s.phase ≡ exited
  empty : s.channel ≡ []
  unanswered : contains d.id s.closed ≡ false
  same_log : s.log ≡ log

-- What a phase is not.
not_at :
    (d : Delivery) (log : List SnapshotEvent) (s : System) (p : Phase)
    → IsBlocked d log s
    → (waiting d ≡ p → ⊥)
    → (exited ≡ p → ⊥)
    → s.phase ≡ p
    → ⊥
not_at d log s p b h k e = elim b.waits [ inl w ↦ h (sym w ∙ e) | inr x ↦ k (sym x ∙ e) ]

Step-IsBlocked :
    (w : SnapshotInput) (d : Delivery) (log : List SnapshotEvent) (s t : System)
    → Step w s t
    → IsBlocked d log s
    → IsBlocked d log t
Step-IsBlocked w d log s _ (fetched msg p) b =
    absurd (not_at d log s fetching b (λ e. cc e) (λ e. cc e) p)
Step-IsBlocked w d log s _ (fetch_failed e p) b =
    absurd (not_at d log s fetching b (λ e. cc e) (λ e. cc e) p)
Step-IsBlocked w d log s _ (rested p) b =
    absurd (not_at d log s backing_off b (λ e. cc e) (λ e. cc e) p)
Step-IsBlocked w d log s _ (sent x p room) b =
    absurd (not_at d log s (sending x) b (λ e. cc e) (λ e. cc e) p)
Step-IsBlocked w d log s _ (acknowledged x p a) b = elim b.waits [
  | inl q ↦ absurd (cc (p, q, a, b.unanswered))
  | inr q ↦ absurd (cc (p, q))
]
Step-IsBlocked w d log s _ (commit_done x p) b =
    absurd (not_at d log s (committing x) b (λ e. cc e) (λ e. cc e) p)
Step-IsBlocked w d log s _ (commit_failed x e p) b =
    absurd (not_at d log s (committing x) b (λ e. cc e) (λ e. cc e) p)
Step-IsBlocked w d log s _ cancelled b = record {
  waits = inr refl;
  empty = b.empty;
  unanswered = b.unanswered;
  same_log = b.same_log;
}
Step-IsBlocked w d log s _ (received x rest on c) b = absurd (cc (b.empty, c))
Step-IsBlocked w d log s _ loop_stopped b = record {
  waits = b.waits;
  empty = b.empty;
  unanswered = b.unanswered;
  same_log = b.same_log;
}
Step-IsBlocked w d log s _ (book_changed book) b = record {
  waits = b.waits;
  empty = b.empty;
  unanswered = b.unanswered;
  same_log = b.same_log;
}

Steps-IsBlocked :
    (w : SnapshotInput) (d : Delivery) (log : List SnapshotEvent) (s t : System)
    → Steps w s t
    → IsBlocked d log s
    → IsBlocked d log t
Steps-IsBlocked w d log s _ here b = b
Steps-IsBlocked w d log s u (later {t} r step) b =
    Step-IsBlocked w d log t u step (Steps-IsBlocked w d log s t r b)

-- Once the order book has refused the snapshot that the worker waits for, no snapshot is applied and
-- no offset is committed any more, however the two goroutines take turns and whatever becomes of the
-- book: the worker waits for that one answer until it is cancelled.
pub rejected-IsFinal :
    (w : SnapshotInput) (s u : System) (d : Delivery) (book : OrderBookState) (e : BookError)
    → s.phase ≡ waiting d
    → contains d.id s.closed ≡ false
    → apply_snapshot w.big s.book d.snapshot ≡ (book, some e)
    → Steps w (receive w (record s { channel = [] }) d) u
    → (u.log ≡ rejected d ∷ s.log) × (u.phase ≡ waiting d ⊎ u.phase ≡ exited)
unfolding receive
rejected-IsFinal w s u d book e p o a r =
    let b =
      Steps-IsBlocked w d (rejected d ∷ s.log) (receive w (record s { channel = [] }) d) u r (
        rw (a, receive)
          (record { waits = inl p; empty = refl; unanswered = o; same_log = refl })) in
    (b.same_log, b.waits)
