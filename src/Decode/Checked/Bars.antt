-- ===== src/Decode/Checked/Bars.antt =====
-- A bar that passed `validate` is a bar: its times and its prices are in order.
use Prim.Native.Nat.{Ordering}
use market_data_backend.Prelude.{
  ◌⊎◌, String, Bool, true, false, ◌&&◌, Option, none, some, ok, ◌==◌, String_eq, ◌≡◌, refl, sym,
  arith, is_some, eq_test_iff, inl, inr, if◌then◌else◌,
}
use market_data_backend.Prelude.Int.{ℤ, ◌<ℤ◌, ltb_ℤ}
use market_data_backend.Prelude.Text.{trim_space}
use market_data_backend.Numeric.{BigFloat, cmp, cmp_parsed, compare_numeric, parse_price}
use market_data_backend.Model.{GroupInput}
use market_data_backend.Model.StreamKind
use market_data_backend.Model.StreamKey.{stream_key_for}
use market_data_backend.Decode.Trade.{time_or_zero}
use market_data_backend.Decode.Decimal.{valid_positive_numeric}
use market_data_backend.Decode.Bar.{
  KlineMessage, kline_source_exchange, stream_key_of, is_less, is_greater, refuse, is_after,
  check_frame, check_price, check_numbers, check_within, check_range, validate_kline,
}
use market_data_backend.Decode.Checked.Guards.{
  check_passed, guard_held, guard_passed, bind_passed, both_true, ok-injective,
}
use market_data_backend.Decode.Checked.Levels.{IsPositive, valid_positive_numeric-IsPositive}

-- The result of `Cmp` from the two tests of its operands.
abbrev sign : Bool → Bool → Ordering
sign at_most at_least =
    if at_most then (if at_least then Ordering.eq else Ordering.lt) else Ordering.gt

not_less :
    (x y : Bool) (e : String)
    → (x ≡ true) ⊎ (y ≡ true)
    → refuse is_less (some (sign x y)) e ≡ ok tt
    → y ≡ true
not_less x true e t h = refl
not_less true false e t h = absurd (cc h)
not_less false false e t h = elim t [ inl p ↦ p | inr p ↦ p ]

not_greater : (x y : Bool) (e : String) → refuse is_greater (some (sign x y)) e ≡ ok tt → x ≡ true
not_greater true y e h = refl
not_greater false y e h = absurd (cc h)

module _ (big : BigFloat) where
  open big use {Float, leb_float, leb_total}

  abbrev Ordered : Option Float → Option Float → Type 0
  Ordered o p = (u : Float) × (v : Float) × (o ≡ some u) × (p ≡ some v) × (leb_float u v ≡ true)

  -- Both texts are numbers, and the first is at most the second.
  abbrev pub AtMost : String → String → Type 0
  AtMost a b = Ordered (parse_price big a) (parse_price big b)

  less_held :
      (o p : Option Float) (e : String)
      → refuse is_less (cmp_parsed big o p) e ≡ ok tt
      → Ordered p o
  unfolding cmp_parsed cmp
  less_held none p e h = absurd (cc h)
  less_held (some u) none e h = absurd (cc h)
  less_held (some u) (some v) e h =
      (v, u, refl, refl, not_less (leb_float u v) (leb_float v u) e (leb_total u v) h)

  greater_held :
      (o p : Option Float) (e : String)
      → refuse is_greater (cmp_parsed big o p) e ≡ ok tt
      → Ordered o p
  unfolding cmp_parsed cmp
  greater_held none p e h = absurd (cc h)
  greater_held (some u) none e h = absurd (cc h)
  greater_held (some u) (some v) e h =
      (u, v, refl, refl, not_greater (leb_float u v) (leb_float v u) e h)

  within_held :
      (km : KlineMessage) (name value : String)
      → check_within big km name value ≡ ok tt
      → AtMost km.low value × AtMost value km.high
  unfolding check_within compare_numeric
  within_held km name value h =
      let both = check_passed (refuse is_less (compare_numeric big value km.low) _) _ tt h in
      (
        less_held (parse_price big value) (parse_price big km.low) _ both.0,
        greater_held (parse_price big value) (parse_price big km.high) _ both.1,
      )

  -- The prices of a bar, and the frame of its input and times.
  pub record IsBar (in_ : GroupInput) (km : KlineMessage) : Type 0 where
    pub low_high : AtMost km.low km.high
    pub low_open : AtMost km.low km.open_price
    pub open_high : AtMost km.open_price km.high
    pub low_close : AtMost km.low km.close_price
    pub close_high : AtMost km.close_price km.high
    pub positive_low : IsPositive big km.low
    pub own_kind : in_.stream_kind ≡ StreamKind.kline
    pub own_interval : trim_space km.interval ≡ in_.interval
    pub ends_later : time_or_zero km.open_time <ℤ time_or_zero km.close_time

  record IsRange (km : KlineMessage) : Type 0 where
    high_low : AtMost km.low km.high
    opens : AtMost km.low km.open_price × AtMost km.open_price km.high
    closes : AtMost km.low km.close_price × AtMost km.close_price km.high

  check_range-IsRange : (km : KlineMessage) → check_range big km ≡ ok tt → IsRange km
  unfolding check_range compare_numeric
  check_range-IsRange km h =
      let high = check_passed (refuse is_less (compare_numeric big km.high km.low) _) _ tt h in
      let open_ = check_passed (check_within big km "open" km.open_price) _ tt high.1 in
      record {
        high_low = less_held (parse_price big km.high) (parse_price big km.low) _ high.0;
        opens = within_held km "open" km.open_price open_.0;
        closes = within_held km "close" km.close_price open_.1;
      }

  record IsFrame (in_ : GroupInput) (km : KlineMessage) : Type 0 where
    kind : in_.stream_kind ≡ StreamKind.kline
    interval : trim_space km.interval ≡ in_.interval
    later : time_or_zero km.open_time <ℤ time_or_zero km.close_time

  before : (a b : ℤ) → ltb_ℤ a b ≡ true → a <ℤ b
  before a b h = ground arith

  check_frame-IsFrame :
      (km : KlineMessage) (in_ : GroupInput) (key : String)
      → check_frame km in_ key ≡ ok tt
      → IsFrame in_ km
  unfolding check_frame
  check_frame-IsFrame km in_ key h =
      let kinds =
        guard_passed (in_.stream_kind == StreamKind.kline && in_.stream_key == key) _ _ tt h in
      let spans = guard_passed (trim_space km.interval == in_.interval) _ _ tt kinds.1 in
      let source = check_passed _ _ tt spans.1 in
      let opens = guard_passed (is_some km.open_time) _ _ tt source.1 in
      let closes = guard_passed (is_some km.close_time) _ _ tt opens.1 in
      let later = guard_held (is_after km.close_time km.open_time) _ closes.1 in
      record {
        kind =
            (eq_test_iff in_.stream_kind StreamKind.kline).0
              (both_true (in_.stream_kind == StreamKind.kline) (in_.stream_key == key) kinds.0).0;
        interval = (eq_test_iff (trim_space km.interval) in_.interval).0 spans.0;
        later = before (time_or_zero km.open_time) (time_or_zero km.close_time) later;
      }

  check_numbers-IsPositive :
      (km : KlineMessage) → check_numbers big km ≡ ok tt → IsPositive big km.low
  unfolding check_numbers
  check_numbers-IsPositive km h =
      let open_ = check_passed (check_price big "open" km.open_price) _ tt h in
      let high = check_passed (check_price big "high" km.high) _ tt open_.1 in
      let low = guard_passed (valid_positive_numeric big km.low) _ _ tt high.1 in
      valid_positive_numeric-IsPositive big km.low low.0

  -- A bar that passes the checks lies within its low and high as numbers, has a low above zero, ends
  -- after it begins, and belongs to an input of bars of its interval; its source is `exchange`.
  pub validate_kline-IsBar :
      (km : KlineMessage) (in_ : GroupInput) (source : String)
      → validate_kline big km in_ ≡ ok source
      → IsBar in_ km × (source ≡ kline_source_exchange)
  unfolding validate_kline
  validate_kline-IsBar km in_ source h =
      let key =
        bind_passed (stream_key_of (stream_key_for StreamKind.kline in_.interval)) _ source h in
      let framed = check_passed (check_frame km in_ key.0) _ source key.2 in
      let numbers = check_passed (check_numbers big km) _ source framed.1 in
      let ranged = check_passed (check_range big km) _ source numbers.1 in
      let frame = check_frame-IsFrame km in_ key.0 framed.0 in
      let range = check_range-IsRange km ranged.0 in
      (
        record {
          low_high = range.high_low;
          low_open = range.opens.0;
          open_high = range.opens.1;
          low_close = range.closes.0;
          close_high = range.closes.1;
          positive_low = check_numbers-IsPositive km numbers.0;
          own_kind = frame.kind;
          own_interval = frame.interval;
          ends_later = frame.later;
        },
        ok-injective (sym ranged.1),
      )
