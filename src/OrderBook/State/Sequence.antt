-- ===== src/OrderBook/State/Sequence.antt =====
-- What the order book accepts when deltas carry sequence numbers.
use market_data_backend.Prelude.{
  true, false, List, [], ◌∷◌, some, ◌≡◌, ◌≢◌, refl, arith, inl, inr, ◌==◌, if◌then◌else◌, ◌⊎◌,
  guard,
}
use market_data_backend.Prelude.Int.{ℤ, ℤ_eq, int_eq_iff, succ64}
use market_data_backend.Model.{OrderBookDelta}
use market_data_backend.OrderBook.Continuity.{check_sequence_match, sequence_gap}
use market_data_backend.OrderBook.State.{
  OrderBookState, reset, write_delta, apply_one, on_delta_applied,
}
use market_data_backend.OrderBook.State.Invariant.{
  IsValid, apply_delta_ready, apply_delta_waiting, on_delta_applied-IsValid,
}

-- `onDeltaApplied` for a list of deltas in the order of their delivery.
unfoldable pub deliver : OrderBookState → List OrderBookDelta → OrderBookState
deliver s [] = s
deliver s (d ∷ ds) = deliver (on_delta_applied s d) ds

check_sequence_match-sequence :
    (s : OrderBookState) (d : OrderBookDelta) (c n : ℤ)
    → s.sequence ≡ some c
    → d.sequence ≡ some n
    → check_sequence_match s.last_update_id s.sequence d
      ≡ guard (n == succ64 c) (sequence_gap (succ64 c) n)
unfolding check_sequence_match
check_sequence_match-sequence s d c n p q = rw (p, q)

-- A ready book with a sequence takes a delta with a sequence exactly when it is the next one;
-- any other delta resets the book.
on_delta_applied-sequence :
    (s : OrderBookState) (d : OrderBookDelta) (c n : ℤ)
    → IsValid s
    → s.ready ≡ true
    → s.sequence ≡ some c
    → d.sequence ≡ some n
    → on_delta_applied s d ≡ (if n == succ64 c then write_delta s d else reset s)
unfolding on_delta_applied apply_one
on_delta_applied-sequence s d c n v ready p q = ground (
  arith,
  apply_delta_ready s d ready (v.drained ready),
  check_sequence_match-sequence s d c n p q,
)

-- Each delta carries the sequence that follows the one before it.
abbrev pub IsContiguous : ℤ → List OrderBookDelta → Type 0
IsContiguous c [] = Unit
IsContiguous c (d ∷ ds) = (d.sequence ≡ some (succ64 c)) × IsContiguous (succ64 c) ds

abbrev pub HasSequence : List OrderBookDelta → Type 0
HasSequence [] = Unit
HasSequence (d ∷ ds) = ((n : ℤ) × (d.sequence ≡ some n)) × HasSequence ds

abbrev pub last_sequence : ℤ → List OrderBookDelta → ℤ
last_sequence c [] = c
last_sequence c (d ∷ ds) = last_sequence (succ64 c) ds

on_delta_applied_waiting :
    (s : OrderBookState) (d : OrderBookDelta)
    → s.ready ≡ false
    → (on_delta_applied s d).ready ≡ false
unfolding on_delta_applied reset
on_delta_applied_waiting s d waiting = ground (arith, apply_delta_waiting s d waiting)

-- Deltas alone never make a waiting book ready.
pub deliver_waiting :
    (s : OrderBookState) (ds : List OrderBookDelta) → s.ready ≡ false → (deliver s ds).ready ≡ false
unfolding deliver
deliver_waiting s [] waiting = waiting
deliver_waiting s (d ∷ ds) waiting =
    deliver_waiting (on_delta_applied s d) ds (on_delta_applied_waiting s d waiting)

-- The two ways of one delivery.
on_delta_applied-cases :
    (s : OrderBookState) (d : OrderBookDelta) (c n : ℤ)
    → IsValid s
    → s.ready ≡ true
    → s.sequence ≡ some c
    → d.sequence ≡ some n
    → ((n ≡ succ64 c)
        × ((on_delta_applied s d).ready ≡ true)
        × ((on_delta_applied s d).sequence ≡ some n))
      ⊎ ((n ≢ succ64 c) × ((on_delta_applied s d).ready ≡ false))
unfolding write_delta reset
on_delta_applied-cases s d c n v ready p q =
    ground (arith, on_delta_applied-sequence s d c n v ready p q, int_eq_iff n (succ64 c))

-- A ready book with a sequence that is still ready after deltas that all carry sequences has seen
-- them without a gap, and its sequence is that of the last one.
pub deliver_ready-IsContiguous :
    (s : OrderBookState) (ds : List OrderBookDelta) (c : ℤ)
    → IsValid s
    → s.ready ≡ true
    → s.sequence ≡ some c
    → HasSequence ds
    → (deliver s ds).ready ≡ true
    → IsContiguous c ds × ((deliver s ds).sequence ≡ some (last_sequence c ds))
unfolding deliver
deliver_ready-IsContiguous s [] c v ready p _ r = (tt, p)
deliver_ready-IsContiguous s (d ∷ ds) c v ready p ((n, q), more) r =
    elim (on_delta_applied-cases s d c n v ready p q) [
      | inl (next, ready', p') ↦
          let (contiguous, last) =
            deliver_ready-IsContiguous (on_delta_applied s d) ds (succ64 c)
              (on_delta_applied-IsValid s d v) ready' (cc) more r in
          ((cc, contiguous), last)
      | inr (gap, waiting) ↦ absurd (cc (deliver_waiting (on_delta_applied s d) ds waiting))
    ]

-- Contiguous deltas are all taken: the book stays ready.
pub deliver-ready_of_IsContiguous :
    (s : OrderBookState) (ds : List OrderBookDelta) (c : ℤ)
    → IsValid s
    → s.ready ≡ true
    → s.sequence ≡ some c
    → IsContiguous c ds
    → (deliver s ds).ready ≡ true
unfolding deliver
deliver-ready_of_IsContiguous s [] c v ready p _ = ready
deliver-ready_of_IsContiguous s (d ∷ ds) c v ready p (q, more) =
    elim (on_delta_applied-cases s d c (succ64 c) v ready p q) [
      | inl (_, ready', p') ↦
          deliver-ready_of_IsContiguous (on_delta_applied s d) ds (succ64 c)
            (on_delta_applied-IsValid s d v) ready' p' more
      | inr (gap, _) ↦ absurd (gap refl)
    ]
