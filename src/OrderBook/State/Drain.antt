-- ===== src/OrderBook/State/Drain.antt =====
-- What the loops of `drainPending` leave alone, and that they keep both sides well formed.
use market_data_backend.Prelude.{
  List, [], ◌∷◌, ok, err, ◌≡◌, refl, ◌∙◌, Bool-cases, Result-cases, inl, inr, ◌⊎◌,
}
use market_data_backend.Model.{OrderBookDelta}
use market_data_backend.OrderBook.Levels.Shape.{IsSide, apply_levels-IsSide}
use market_data_backend.OrderBook.Continuity.{GapError, check_sequence_match}
use market_data_backend.OrderBook.State.{
  OrderBookState, write_delta, apply_one, is_stale, apply_rest, drain_from,
}

pub record IsBook (s : OrderBookState) : Type 0 where
  pub bids_side : IsSide s.bids
  pub asks_side : IsSide s.asks

-- `t` comes from `s` by deltas alone.
pub record Follows (s t : OrderBookState) : Type 0 where
  pub same_ready : t.ready ≡ s.ready
  pub same_pending : t.pending ≡ s.pending
  pub same_max : t.max_pending ≡ s.max_pending
  pub same_input : t.input_id ≡ s.input_id
  pub keeps_book : IsBook s → IsBook t

pub Follows-refl : (s : OrderBookState) → Follows s s
Follows-refl s = record {
  same_ready = refl;
  same_pending = refl;
  same_max = refl;
  same_input = refl;
  keeps_book = λ h. h;
}

pub Follows-trans : {s t u : OrderBookState} → Follows s t → Follows t u → Follows s u
Follows-trans p q = record {
  same_ready = q.same_ready ∙ p.same_ready;
  same_pending = q.same_pending ∙ p.same_pending;
  same_max = q.same_max ∙ p.same_max;
  same_input = q.same_input ∙ p.same_input;
  keeps_book = λ h. q.keeps_book (p.keeps_book h);
}

pub write_delta-Follows : (s : OrderBookState) (d : OrderBookDelta) → Follows s (write_delta s d)
unfolding write_delta
write_delta-Follows s d = record {
  same_ready = refl;
  same_pending = refl;
  same_max = refl;
  same_input = refl;
  keeps_book = λ h. record {
    bids_side = apply_levels-IsSide s.bids d.bids h.bids_side;
    asks_side = apply_levels-IsSide s.asks d.asks h.asks_side;
  };
}

-- `applyOne` either writes the delta or reports a gap, by the continuity check alone.
pub apply_one-cases :
    (s : OrderBookState) (d : OrderBookDelta)
    → (apply_one s d ≡ ok (write_delta s d))
        × (check_sequence_match s.last_update_id s.sequence d ≡ ok tt)
      ⊎ ((e : GapError) × (apply_one s d ≡ err e)
          × (check_sequence_match s.last_update_id s.sequence d ≡ err e))
unfolding apply_one
apply_one-cases s d = elim (Result-cases (check_sequence_match s.last_update_id s.sequence d)) [
  | inl (_, matched) ↦ inl (rw (matched, apply_one), matched)
  | inr (e, gap) ↦ inr (e, rw (gap, apply_one), gap)
]

pub apply_rest-Follows :
    (s : OrderBookState) (ds : List OrderBookDelta) → Follows s (apply_rest s ds).0
unfolding apply_rest
apply_rest-Follows s [] = Follows-refl s
apply_rest-Follows s (d ∷ ds) = elim (apply_one-cases s d) [
  | inl (written, _) ↦
      rw (written, apply_rest)
        (Follows-trans (write_delta-Follows s d) (apply_rest-Follows (write_delta s d) ds))
  | inr (e, gap, _) ↦ rw (gap, apply_rest) (Follows-refl s)
]

pub drain_from-Follows :
    (s : OrderBookState) (ds : List OrderBookDelta) → Follows s (drain_from s ds).0
unfolding drain_from
drain_from-Follows s [] = Follows-refl s
drain_from-Follows s (d ∷ ds) = elim (Bool-cases (is_stale s d)) [
  | inl stale ↦ rw (stale, drain_from) (drain_from-Follows s ds)
  | inr ahead ↦ rw (ahead, drain_from) (apply_rest-Follows s (d ∷ ds))
]
