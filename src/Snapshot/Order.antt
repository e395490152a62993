-- ===== src/Snapshot/Order.antt =====
-- An offset is committed only after its snapshot is in the book.
use market_data_backend.Prelude.{
  ℕ, ◌+◌, ◌≤◌, ◌<◌, String, true, false, List, [], ◌∷◌, Option, none, some, ◌≡◌, refl, sym, ap, ◌∙◌,
  subst, ◌⊎◌, inl, inr, contains, length, ℕ_eq, All, arith, Result-cases, eq_test_iff,
}
use market_data_backend.OrderBook.State.{OrderBookState, BookError, apply_snapshot}
use market_data_backend.Decode.Book.{build_order_book_snapshot}
use market_data_backend.Input.Types.{Message}
use market_data_backend.Snapshot.{
  SnapshotInput, Delivery, Phase, fetching, backing_off, sending, waiting, committing, exited,
  SnapshotEvent, applied, rejected, committed, System, new_system, back_off, handle_message, answer,
  receive, Step, fetched, fetch_failed, rested, sent, acknowledged, commit_done, commit_failed,
  cancelled, received, loop_stopped, book_changed, Steps, here, later,
}

-- A delivery was applied, at some place of the log.
abbrev pub WasApplied : Delivery → List SnapshotEvent → Type 0
WasApplied d [] = ⊥
WasApplied d (applied e ∷ log) = (e ≡ d) ⊎ WasApplied d log
WasApplied d (rejected e ∷ log) = WasApplied d log
WasApplied d (committed e ∷ log) = WasApplied d log

-- Each commit comes after its delivery was applied.
abbrev pub IsInOrder : List SnapshotEvent → Type 0
IsInOrder [] = Unit
IsInOrder (applied d ∷ log) = IsInOrder log
IsInOrder (rejected d ∷ log) = IsInOrder log
IsInOrder (committed d ∷ log) = WasApplied d log × IsInOrder log

-- What the phase of the worker says of the channel and of the deliveries that are acknowledged.
abbrev Fits : Phase → System → Type 0
Fits fetching s = s.channel ≡ []
Fits backing_off s = s.channel ≡ []
Fits (sending d) s = (s.channel ≡ []) × (contains d.id s.closed ≡ false) × (d.id < s.next_id)
Fits (waiting d) s =
    ((s.channel ≡ d ∷ []) × (contains d.id s.closed ≡ false) × (d.id < s.next_id))
    ⊎ ((s.channel ≡ []) × (contains d.id s.closed ≡ true → WasApplied d s.log))
Fits (committing d) s = (s.channel ≡ []) × WasApplied d s.log
Fits exited s = length s.channel ≤ 1

record IsSound (s : System) : Type 0 where
  fits : Fits s.phase s
  waits : All (λ (d : Delivery). d.id < s.next_id) s.channel
  known : All (λ i. i < s.next_id) s.closed
  in_order : IsInOrder s.log

new_system-IsSound : (book : OrderBookState) → IsSound (new_system book)
unfolding new_system
new_system-IsSound book = record { fits = refl; waits = tt; known = tt; in_order = tt }

at_phase : (s : System) (p : Phase) → s.phase ≡ p → Fits s.phase s → Fits p s
at_phase s p e f = subst (λ q. Fits q s) e f

grow : (n : ℕ) (is : List ℕ) → All (λ i. i < n) is → All (λ i. i < n + 1) is
grow n [] h = tt
grow n (i ∷ is) h = (omega (arith, h.0), grow n is h.1)

fresh : (n : ℕ) (is : List ℕ) → All (λ i. i < n) is → contains n is ≡ false
fresh n [] h = refl
fresh n (i ∷ is) h = ground (arith, fresh n is h.1, h.0, eq_test_iff i n)

back_off-IsSound :
    (s : System) (message : String) → s.channel ≡ [] → IsSound s → IsSound (back_off s message)
back_off-IsSound s message empty v = record {
  fits = empty;
  waits = v.waits;
  known = v.known;
  in_order = v.in_order;
}

handle_message-IsSound :
    (w : SnapshotInput) (s : System) (msg : Message)
    → s.phase ≡ fetching
    → IsSound s
    → IsSound (handle_message w s msg)
unfolding handle_message
handle_message-IsSound w s msg p v =
    elim (Result-cases (build_order_book_snapshot w.big w.decode w.input msg)) [
      | inl (snap, good) ↦
          rw (good, handle_message)
            (record {
              fits = (at_phase s fetching p v.fits, fresh s.next_id s.closed v.known, omega arith);
              waits = rw (at_phase s fetching p v.fits) tt;
              known = grow s.next_id s.closed v.known;
              in_order = v.in_order;
            })
      | inr (e, bad) ↦
          rw (bad, handle_message) (back_off-IsSound s _ (at_phase s fetching p v.fits) v)
    ]

the_one :
    (ds : List Delivery) (d e : Delivery) (rest : List Delivery)
    → ds ≡ d ∷ rest
    → ds ≡ e ∷ []
    → (d ≡ e) × (rest ≡ [])
the_one ds d e rest c f = (
  ap (λ xs. elim xs [ [] ↦ d | x ∷ more ↦ x ]) (sym c ∙ f),
  ap (λ xs. elim xs [ [] ↦ [] | x ∷ more ↦ more ]) (sym c ∙ f),
)

shorter :
    (ds : List Delivery) (d : Delivery) (rest : List Delivery)
    → ds ≡ d ∷ rest
    → length ds ≤ 1
    → length rest ≤ 1
shorter ds d rest c h = omega (arith, ap length c)

-- The worker's view after the loop has taken the one delivery that is under way.
answer-Fits :
    (p : Phase) (s : System) (d : Delivery) (rest : List Delivery)
    (r : OrderBookState × Option BookError)
    → s.channel ≡ d ∷ rest
    → Fits p s
    → Fits p (answer (record s { channel = rest }) d r)
answer-Fits fetching s d rest r c f = absurd (cc (f, c))
answer-Fits backing_off s d rest r c f = absurd (cc (f, c))
answer-Fits (sending e) s d rest r c f = absurd (cc (f.0, c))
answer-Fits (waiting e) s d rest (book, none) c (inl f) =
    let only = the_one s.channel d e rest c f.0 in inr (only.1, λ _. inl only.0)
answer-Fits (waiting e) s d rest (book, some x) c (inl f) =
    inr ((the_one s.channel d e rest c f.0).1, λ h. absurd (cc (h, f.1)))
answer-Fits (waiting e) s d rest r c (inr f) = absurd (cc (f.0, c))
answer-Fits (committing e) s d rest r c f = absurd (cc (f.0, c))
answer-Fits exited s d rest (book, none) c f = shorter s.channel d rest c f
answer-Fits exited s d rest (book, some x) c f = shorter s.channel d rest c f

answer-IsSound :
    (s : System) (d : Delivery) (rest : List Delivery) (r : OrderBookState × Option BookError)
    → s.channel ≡ d ∷ rest
    → IsSound s
    → IsSound (answer (record s { channel = rest }) d r)
answer-IsSound s d rest (book, none) c v =
    let w = subst (λ ds. All (λ (x : Delivery). x.id < s.next_id) ds) c v.waits in
    record {
      fits = answer-Fits s.phase s d rest (book, none) c v.fits;
      waits = w.1;
      known = (w.0, v.known);
      in_order = v.in_order;
    }
answer-IsSound s d rest (book, some e) c v =
    let w = subst (λ ds. All (λ (x : Delivery). x.id < s.next_id) ds) c v.waits in
    record {
      fits = answer-Fits s.phase s d rest (book, some e) c v.fits;
      waits = w.1;
      known = v.known;
      in_order = v.in_order;
    }

receive-IsSound :
    (w : SnapshotInput) (s : System) (d : Delivery) (rest : List Delivery)
    → s.channel ≡ d ∷ rest
    → IsSound s
    → IsSound (receive w (record s { channel = rest }) d)
unfolding receive
receive-IsSound w s d rest c v =
    answer-IsSound s d rest (apply_snapshot w.big s.book d.snapshot) c v

-- Whatever the phase, at most one delivery is in the channel.
Fits-channel : (p : Phase) (s : System) → Fits p s → length s.channel ≤ 1
Fits-channel fetching s f = omega (arith, ap length f)
Fits-channel backing_off s f = omega (arith, ap length f)
Fits-channel (sending d) s f = omega (arith, ap length f.0)
Fits-channel (waiting d) s (inl f) = omega (arith, ap length f.0)
Fits-channel (waiting d) s (inr f) = omega (arith, ap length f.0)
Fits-channel (committing d) s f = omega (arith, ap length f.0)
Fits-channel exited s f = f

-- What does not touch the channel, the acknowledgements, the ids, the log or the phase changes
-- nothing of this.
same_Fits :
    (p : Phase) (s t : System)
    → s.channel ≡ t.channel
    → s.closed ≡ t.closed
    → s.next_id ≡ t.next_id
    → s.log ≡ t.log
    → Fits p s
    → Fits p t
same_Fits fetching s t c k n l f = sym c ∙ f
same_Fits backing_off s t c k n l f = sym c ∙ f
same_Fits (sending d) s t c k n l f = rw (sym c, sym k, sym n) f
same_Fits (waiting d) s t c k n l f = rw (sym c, sym k, sym n, sym l) f
same_Fits (committing d) s t c k n l f = rw (sym c, sym l) f
same_Fits exited s t c k n l f = rw (sym c) f

Step-IsSound : (w : SnapshotInput) (s t : System) → Step w s t → IsSound s → IsSound t
Step-IsSound w s _ (fetched msg p) v = handle_message-IsSound w s msg p v
Step-IsSound w s _ (fetch_failed e p) v = back_off-IsSound s _ (at_phase s fetching p v.fits) v
Step-IsSound w s _ (rested p) v = record {
  fits = at_phase s backing_off p v.fits;
  waits = v.waits;
  known = v.known;
  in_order = v.in_order;
}
Step-IsSound w s _ (sent d p room) v =
    let f = at_phase s (sending d) p v.fits in
    record {
      fits = inl (rw (f.0) refl, f.1, f.2);
      waits = rw (f.0) (f.2, tt);
      known = v.known;
      in_order = v.in_order;
    }
Step-IsSound w s _ (acknowledged d p a) v = record {
  fits = elim (at_phase s (waiting d) p v.fits) [
    | inl f ↦ absurd (cc (a, f.1))
    | inr f ↦ (f.0, f.1 a)
  ];
  waits = v.waits;
  known = v.known;
  in_order = v.in_order;
}
Step-IsSound w s _ (commit_done d p) v =
    let f = at_phase s (committing d) p v.fits in
    record { fits = f.0; waits = v.waits; known = v.known; in_order = (f.1, v.in_order) }
Step-IsSound w s _ (commit_failed d e p) v =
    back_off-IsSound s _ (at_phase s (committing d) p v.fits).0 v
Step-IsSound w s _ cancelled v = record {
  fits = Fits-channel s.phase s v.fits;
  waits = v.waits;
  known = v.known;
  in_order = v.in_order;
}
Step-IsSound w s _ (received d rest on c) v = receive-IsSound w s d rest c v
Step-IsSound w s _ loop_stopped v = record {
  fits = same_Fits s.phase s (record s { receiving = false }) refl refl refl refl v.fits;
  waits = v.waits;
  known = v.known;
  in_order = v.in_order;
}
Step-IsSound w s _ (book_changed b) v = record {
  fits = same_Fits s.phase s (record s { book = b }) refl refl refl refl v.fits;
  waits = v.waits;
  known = v.known;
  in_order = v.in_order;
}

Steps-IsSound : (w : SnapshotInput) (s t : System) → Steps w s t → IsSound s → IsSound t
Steps-IsSound w s _ here v = v
Steps-IsSound w s u (later {t} r step) v = Step-IsSound w t u step (Steps-IsSound w s t r v)

-- Whatever the broker, the decoder and the order book do, and however the two goroutines take
-- turns, an offset is committed only after its snapshot was applied to the order book, and the
-- channel never holds more than one snapshot.
pub Steps-IsInOrder :
    (w : SnapshotInput) (book : OrderBookState) (s : System)
    → Steps w (new_system book) s
    → IsInOrder s.log × (length s.channel ≤ 1)
Steps-IsInOrder w book s r =
    let v = Steps-IsSound w (new_system book) s r (new_system-IsSound book) in
    (v.in_order, Fits-channel s.phase s v.fits)
