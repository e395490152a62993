-- ===== src/Sequence/Laws.antt =====
-- What the gate lets through: replays never, and terminal cursors only in ascending order.
use market_data_backend.Prelude.{
  String, true, false, List, [], ◌∷◌, Option, none, some, ok, err, ◌≡◌, ◌≢◌, refl, arith, All,
  String_eq, inl, inr, eq_test_self, ◌⊎◌,
}
use market_data_backend.Prelude.Int.{ℤ, ℤ_eq, ◌<ℤ◌}
use market_data_backend.Prelude.Sort.Laws.{All-imp}
use market_data_backend.Model.{OrderBookDelta}
use market_data_backend.Sequence.{
  delta_terminal, same_optional_int64, has_cursor, is_ahead, check_delta_continuity,
}

-- The gate reports no error, whatever the deltas are.
pub check_delta_continuity-ne-err :
    (previous : Option OrderBookDelta) (current : OrderBookDelta) (e : String)
    → check_delta_continuity previous current ≢ err e
unfolding check_delta_continuity
check_delta_continuity-ne-err none current e h = cc h
check_delta_continuity-ne-err (some previous) current e h = ground arith

-- A delta that moves the cursor past one with a terminal cursor has a greater one, or none.
pub check_delta_continuity-lt :
    (previous current : OrderBookDelta) (p c : ℤ)
    → delta_terminal previous ≡ some p
    → delta_terminal current ≡ some c
    → check_delta_continuity (some previous) current ≡ ok true
    → p <ℤ c
unfolding check_delta_continuity is_ahead
check_delta_continuity-lt previous current p c hp hc h = ground arith

same_optional_int64_self : (a : Option ℤ) → same_optional_int64 a a ≡ true
unfolding same_optional_int64
same_optional_int64_self none = refl
same_optional_int64_self (some a) = eq_test_self a

-- A delta that is delivered again right after it moved the cursor does not move it again, as long
-- as it carries some cursor.
pub check_delta_continuity-replay :
    (delta : OrderBookDelta)
    → has_cursor delta ≡ true
    → check_delta_continuity (some delta) delta ≡ ok false
unfolding check_delta_continuity
check_delta_continuity-replay delta h = ground (
  arith,
  same_optional_int64_self delta.first_update_id,
  same_optional_int64_self delta.last_update_id,
  same_optional_int64_self delta.sequence,
)

-- The deltas of a stream that move the cursor, in order.
unfoldable pub accepted : Option OrderBookDelta → List OrderBookDelta → List OrderBookDelta
accepted cursor [] = []
accepted cursor (d ∷ ds) = elim (check_delta_continuity cursor d) [
  | ok true ↦ d ∷ accepted (some d) ds
  | ok false ↦ accepted cursor ds
  | err e ↦ []
]

abbrev pub HasTerminal : OrderBookDelta → Type 0
HasTerminal d = (c : ℤ) × (delta_terminal d ≡ some c)

abbrev pub IsAbove : ℤ → OrderBookDelta → Type 0
IsAbove p d = (c : ℤ) × (delta_terminal d ≡ some c) × (p <ℤ c)

-- Each delta has a terminal cursor below that of all that follow it.
abbrev pub IsAscending : List OrderBookDelta → Type 0
IsAscending [] = Unit
IsAscending (d ∷ ds) = ((p : ℤ) × (delta_terminal d ≡ some p) × All (IsAbove p) ds) × IsAscending ds

continuity-cases :
    (cursor : Option OrderBookDelta) (d : OrderBookDelta)
    → (check_delta_continuity cursor d ≡ ok true) ⊎ (check_delta_continuity cursor d ≡ ok false)
unfolding check_delta_continuity
continuity-cases none d = inl refl
continuity-cases (some previous) d = ground arith

accepted_after :
    (cursor : OrderBookDelta) (ds : List OrderBookDelta) (p : ℤ)
    → delta_terminal cursor ≡ some p
    → All HasTerminal ds
    → All (IsAbove p) (accepted (some cursor) ds) × IsAscending (accepted (some cursor) ds)
unfolding accepted
accepted_after cursor [] p e h = (tt, tt)
accepted_after cursor (d ∷ ds) p e ((c, f), h) = elim (continuity-cases (some cursor) d) [
  | inl advance ↦
      let lt = check_delta_continuity-lt cursor d p c e f advance in
      let (above, ascending) = accepted_after d ds c f h in
      rw (advance, accepted)
        (
          (
            (c, f, lt),
            All-imp (IsAbove c) (IsAbove p) (accepted (some d) ds)
                (λ x (b, g, m). (b, g, omega arith)) above,
          ),
          ((c, f, above), ascending),
        )
  | inr skipped ↦ rw (skipped, accepted) (accepted_after cursor ds p e h)
]

-- Of a stream of deltas that all have a terminal cursor, those that move the cursor, from a fresh
-- start, have strictly ascending terminal cursors: no record is taken twice or out of order.
pub accepted-IsAscending :
    (ds : List OrderBookDelta) → All HasTerminal ds → IsAscending (accepted none ds)
unfolding accepted check_delta_continuity
accepted-IsAscending [] h = tt
accepted-IsAscending (d ∷ ds) ((c, f), h) =
    let (above, ascending) = accepted_after d ds c f h in ((c, f, above), ascending)
