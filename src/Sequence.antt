-- ===== src/Sequence.antt =====
-- internal/runtime/sequence.go: the monotonicity gate that fact ingestion puts before a delta.
pub mod Laws
use market_data_backend.Prelude.{
  String, Bool, true, false, not, ◌&&◌, ◌||◌, Option, none, some, Result, ok, ◌==◌, String_eq,
  if◌then◌else◌, is_some,
}
use market_data_backend.Prelude.Text.{is_empty}
use market_data_backend.Prelude.Int.{ℤ, ℤ_eq, ltb_ℤ}
use market_data_backend.Model.{OrderBookDelta}

unfoldable pub delta_terminal : OrderBookDelta → Option ℤ
delta_terminal delta = elim delta.last_update_id [ some id ↦ some id | none ↦ delta.sequence ]

unfoldable pub same_optional_int64 : Option ℤ → Option ℤ → Bool
same_optional_int64 none none = true
same_optional_int64 none (some b) = false
same_optional_int64 (some a) none = false
same_optional_int64 (some a) (some b) = a == b

-- Both deltas carry the same non-empty raw event id.
unfoldable pub same_event : String → String → Bool
same_event a b = if is_empty a then false else if is_empty b then false else a == b

unfoldable pub has_cursor : OrderBookDelta → Bool
has_cursor a =
    if is_some a.first_update_id
    then true
    else if is_some a.last_update_id
    then true
    else is_some a.sequence

unfoldable pub same_delta_identity : OrderBookDelta → OrderBookDelta → Bool
unfolding same_optional_int64 same_event has_cursor
same_delta_identity a b =
    if same_event a.raw_event_id b.raw_event_id
    then true
    else if same_optional_int64 a.first_update_id b.first_update_id
    then (if same_optional_int64 a.last_update_id b.last_update_id
        then (if same_optional_int64 a.sequence b.sequence then has_cursor a else false)
        else false)
    else false

-- Where both deltas have a terminal cursor, the new one has to be ahead.
unfoldable pub is_ahead : Option ℤ → Option ℤ → Bool
is_ahead (some prev) (some cur) = ltb_ℤ prev cur
is_ahead _ _ = true

-- The result says whether the cursor advances; the code returns no error on any path.
unfoldable pub check_delta_continuity : Option OrderBookDelta → OrderBookDelta → Result String Bool
unfolding same_delta_identity is_ahead delta_terminal
check_delta_continuity none current = ok true
check_delta_continuity (some previous) current =
    if same_delta_identity previous current
    then ok false
    else ok (is_ahead (delta_terminal previous) (delta_terminal current))
