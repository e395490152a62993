-- ===== src/Decode/Checked/Levels.antt =====
-- A delta that was built from a message has levels with decimal prices above zero.
use market_data_backend.Prelude.{
  ℕ, ◌+◌, String, Bool, true, false, not, ◌&&◌, List, [], ◌∷◌, Option, none, some, Result, ok, ◌>>◌,
  guard, arith, ◌≡◌, refl, subst, All, is_some,
}
use market_data_backend.Prelude.Text.{trim_space}
use market_data_backend.Numeric.{BigFloat, parse_price}
use market_data_backend.Model.{PriceLevel, OrderBookDelta, GroupInput}
use market_data_backend.Input.Types.{Message}
use market_data_backend.Decode.Decimal.{
  is_above_zero, matches_decimal, valid_positive_numeric, valid_non_negative_numeric,
}
use market_data_backend.Decode.Book.{
  OrderBookDeltaMessage, is_nil, in_order, check_cursor, check_cursors, level_error, check_levels,
  validate_price_levels, validate_delta, to_order_book_delta, build_order_book_delta,
}
use market_data_backend.Decode.Checked.Guards.{
  check_passed, guard_held, guard_passed, bind_passed, both_true, ok-injective,
}

module _ (big : BigFloat) where
  open big use {Float, parse_float, leb_float, zero_float}

  -- The text is a number above zero.
  abbrev pub IsPositive : String → Type 0
  IsPositive s = (v : Float) × (parse_price big s ≡ some v) × (leb_float v zero_float ≡ false)

  above_zero :
      (o : Option Float)
      → is_above_zero big o ≡ true
      → (v : Float) × (o ≡ some v) × (leb_float v zero_float ≡ false)
  above_zero none h = absurd (cc h)
  above_zero (some v) h = (v, refl, ground arith)

  pub valid_positive_numeric-IsPositive :
      (s : String) → valid_positive_numeric big s ≡ true → IsPositive s
  unfolding valid_positive_numeric parse_price
  valid_positive_numeric-IsPositive s h =
      above_zero (parse_float (trim_space s))
        (both_true (matches_decimal (trim_space s)) (is_above_zero big (parse_float (trim_space s)))
          h).1

  -- A level of a message: its price is a number above zero, its quantity a number of zero or more.
  abbrev pub IsLevel : PriceLevel → Type 0
  IsLevel level = IsPositive level.price × (valid_non_negative_numeric big level.quantity ≡ true)

  check_levels-All :
      (side : String) (i : ℕ) (levels : List PriceLevel)
      → check_levels big side i levels ≡ ok tt
      → All IsLevel levels
  unfolding check_levels
  check_levels-All side i [] h = tt
  check_levels-All side i (level ∷ levels) h =
      let rest = check_levels big side (i + 1) levels in
      let quantity = valid_non_negative_numeric big level.quantity in
      let amount = guard quantity (level_error side i "quantity" level.quantity) >> rest in
      let p =
        guard_passed (valid_positive_numeric big level.price)
          (level_error side i "price" level.price) amount tt h in
      let q = guard_passed quantity (level_error side i "quantity" level.quantity) rest tt p.1 in
      (
        (valid_positive_numeric-IsPositive level.price p.0, q.0),
        check_levels-All side (i + 1) levels q.1,
      )

  -- A delta as the order book wants it.
  pub record IsDelta (in_ : GroupInput) (msg : Message) (d : OrderBookDelta) : Type 0 where
    pub bid_levels : All IsLevel d.bids
    pub ask_levels : All IsLevel d.asks
    pub not_empty : (is_nil d.bids && is_nil d.asks) ≡ false
    pub in_range : in_order d.first_update_id d.last_update_id ≡ true
    pub own_group : d.group_id ≡ in_.group_id
    pub at_offset : (d.kafka_partition ≡ msg.partition) × (d.kafka_offset ≡ msg.offset)

  -- What the checks of `validate` grant.
  record IsSound (dm : OrderBookDeltaMessage) : Type 0 where
    bid_levels : All IsLevel dm.bids
    ask_levels : All IsLevel dm.asks
    not_empty : (is_nil dm.bids && is_nil dm.asks) ≡ false
    in_range : in_order dm.first_update_id dm.last_update_id ≡ true

  is_false : (b : Bool) → not b ≡ true → b ≡ false
  is_false b h = ground arith

  check_cursors-in_range :
      (dm : OrderBookDeltaMessage)
      → check_cursors dm ≡ ok tt
      → in_order dm.first_update_id dm.last_update_id ≡ true
  unfolding check_cursors
  check_cursors-in_range dm h =
      let first = check_passed (check_cursor "first_update_id" dm.first_update_id) _ tt h in
      let last = check_passed (check_cursor "last_update_id" dm.last_update_id) _ tt first.1 in
      let prev = check_passed (check_cursor "prev_update_id" dm.prev_update_id) _ tt last.1 in
      let seq = check_passed (check_cursor "sequence" dm.sequence) _ tt prev.1 in
      guard_held (in_order dm.first_update_id dm.last_update_id) _ seq.1

  validate_delta-IsSound : (dm : OrderBookDeltaMessage) → validate_delta big dm ≡ ok tt → IsSound dm
  unfolding validate_delta validate_price_levels
  validate_delta-IsSound dm h =
      let timed = guard_passed (is_some dm.event_time) _ _ tt h in
      let cursors = check_passed (check_cursors dm) _ tt timed.1 in
      let filled = guard_passed (not (is_nil dm.bids && is_nil dm.asks)) _ _ tt cursors.1 in
      let sides = check_passed (check_levels big "bids" 0 dm.bids) _ tt filled.1 in
      record {
        bid_levels = check_levels-All "bids" 0 dm.bids sides.0;
        ask_levels = check_levels-All "asks" 0 dm.asks sides.1;
        not_empty = is_false (is_nil dm.bids && is_nil dm.asks) filled.0;
        in_range = check_cursors-in_range dm cursors.0;
      }

  built :
      (dm : OrderBookDeltaMessage) (in_ : GroupInput) (msg : Message)
      → IsSound dm
      → IsDelta in_ msg (to_order_book_delta dm in_ msg)
  unfolding to_order_book_delta
  built dm in_ msg sound = record {
    bid_levels = sound.bid_levels;
    ask_levels = sound.ask_levels;
    not_empty = sound.not_empty;
    in_range = sound.in_range;
    own_group = refl;
    at_offset = (refl, refl);
  }

  -- A delta that is built from a message, whatever the JSON decoder makes of its bytes, has on both
  -- sides only levels with a price above zero and a quantity of zero or more, has at least one
  -- level, update ids in order, the group of its input and the coordinates of its message.
  pub build_order_book_delta-IsDelta :
      (decode : List ℕ → Result String OrderBookDeltaMessage) (in_ : GroupInput) (msg : Message)
      (d : OrderBookDelta)
      → build_order_book_delta big decode in_ msg ≡ ok d
      → IsDelta in_ msg d
  unfolding build_order_book_delta
  build_order_book_delta-IsDelta decode in_ msg d h =
      let read = bind_passed (decode msg.value) _ d h in
      let valid = check_passed (validate_delta big read.0) _ d read.2 in
      subst (IsDelta in_ msg) (ok-injective valid.1)
        (built read.0 in_ msg (validate_delta-IsSound read.0 valid.0))
