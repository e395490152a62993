-- ===== src/Decode/Bar.antt =====
-- internal/runtime/kline_decode.go.
use Prim.Native.String.{◌++◌}
use Prim.Native.Nat.{Ordering}
use market_data_backend.Prelude.{
  ℕ, String, Bool, true, false, List, Option, none, some, Result, ok, err, ◌>>=◌, ◌>>◌, guard,
  is_some, if◌then◌else◌, ◌||◌, ◌&&◌, ◌==◌, String_eq,
}
use market_data_backend.Prelude.Int.{ℤ, pos, leb_ℤ, ltb_ℤ}
use market_data_backend.Prelude.Text.{trim_space, is_empty, lowers_to, quoted}
use market_data_backend.Numeric.{BigFloat, compare_numeric}
use market_data_backend.Model.{Kline, GroupInput}
use market_data_backend.Model.StreamKind
use market_data_backend.Model.StreamKey.{KeyError, stream_key_for}
use market_data_backend.Input.Config.{input_id}
use market_data_backend.Input.Types.{Message}
use market_data_backend.Decode.{FlexTime}
use market_data_backend.Decode.Trade.{time_or_zero}
use market_data_backend.Decode.Decimal.{valid_positive_numeric, valid_non_negative_numeric}

abbrev pub kline_source_exchange : String
kline_source_exchange = "exchange"

pub record KlineMessage : Type 0 where
  pub source : String
  pub interval : String
  pub open_time : FlexTime
  pub close_time : FlexTime
  pub open_price : String
  pub high : String
  pub low : String
  pub close_price : String
  pub volume : String
  pub quote_volume : String
  pub trade_count : ℤ
  pub is_closed : Bool
  pub revision : ℤ

-- `panics` is the panic of `Cmp` on the nil pointer of a failed parse.
pub data BarError : Type 0 where
  interval_error : KeyError → BarError
  rejected : String → BarError
  panics : BarError

abbrev pub stream_key_of : Result KeyError String → Result BarError String
stream_key_of (ok key) = ok key
stream_key_of (err e) = err (interval_error e)

abbrev pub is_less : Ordering → Bool
is_less Ordering.lt = true
is_less _ = false

abbrev pub is_greater : Ordering → Bool
is_greater Ordering.gt = true
is_greater _ = false

-- `if bad(compareNumeric(a, b)) { return error }`.
abbrev pub refuse : (Ordering → Bool) → Option Ordering → String → Result BarError (Unit {0})
refuse bad none e = err panics
refuse bad (some o) e = if bad o then err (rejected e) else ok tt

-- `!close.After(open)`, negated.
abbrev pub is_after : FlexTime → FlexTime → Bool
is_after close open_ = ltb_ℤ (time_or_zero open_) (time_or_zero close)

abbrev pub require : Bool → String → Result BarError (Unit {0})
require test e = guard test (rejected e)

-- The checks of the input and of the message's interval, source and times.
unfoldable pub check_frame : KlineMessage → GroupInput → String → Result BarError (Unit {0})
check_frame km in_ key =
    require (in_.stream_kind == StreamKind.kline && in_.stream_key == key) (
      "kline: input stream_key "
      ++ (quoted in_.stream_key ++ (" does not match interval " ++ quoted in_.interval)))
    >> require (trim_space km.interval == in_.interval) (
        "kline: message interval "
        ++ (quoted km.interval ++ (" does not match input interval " ++ quoted in_.interval)))
    >> require
        (is_empty (trim_space km.source) || lowers_to (trim_space km.source) kline_source_exchange)
        ("kline: unsupported source " ++ quoted km.source)
    >> require (is_some km.open_time) "kline: missing open_time"
    >> require (is_some km.close_time) "kline: missing close_time"
    >> require (is_after km.close_time km.open_time) "kline: close_time must be after open_time"

module _ (big : BigFloat) where
  abbrev pub check_price : String → String → Result BarError (Unit {0})
  check_price name value =
      require (valid_positive_numeric big value)
        ("kline: invalid " ++ (name ++ (" " ++ quoted value)))

  unfoldable pub check_numbers : KlineMessage → Result BarError (Unit {0})
  check_numbers km =
      check_price "open" km.open_price
      >> check_price "high" km.high
      >> check_price "low" km.low
      >> check_price "close" km.close_price
      >> require (valid_non_negative_numeric big km.volume)
          ("kline: invalid volume " ++ quoted km.volume)
      >> require
          (is_empty (trim_space km.quote_volume) || valid_non_negative_numeric big km.quote_volume)
          ("kline: invalid quote_volume " ++ quoted km.quote_volume)
      >> require (leb_ℤ (pos 0) km.trade_count) "kline: trade_count must be non-negative"
      >> require (leb_ℤ (pos 0) km.revision) "kline: revision must be non-negative"

  -- `value < low || value > high`: the second comparison runs only if the first is not met.
  unfoldable pub check_within : KlineMessage → String → String → Result BarError (Unit {0})
  check_within km name value =
      let e = "kline: " ++ (name ++ " must be within low/high") in
      refuse is_less (compare_numeric big value km.low) e
      >> refuse is_greater (compare_numeric big value km.high) e

  unfoldable pub check_range : KlineMessage → Result BarError (Unit {0})
  unfolding check_within
  check_range km =
      refuse is_less (compare_numeric big km.high km.low)
        "kline: high must be greater than or equal to low"
      >> check_within km "open" km.open_price
      >> check_within km "close" km.close_price

  unfoldable pub validate_kline : KlineMessage → GroupInput → Result BarError String
  unfolding check_frame check_numbers check_range stream_key_for
  validate_kline km in_ = stream_key_of (stream_key_for StreamKind.kline in_.interval) >>= λ key.
      check_frame km in_ key >> check_numbers km >> check_range km >> ok kline_source_exchange

unfoldable pub to_kline : KlineMessage → GroupInput → Message → String → Kline
unfolding input_id
to_kline km in_ msg source = record {
  group_id = in_.group_id;
  input_id = input_id in_;
  source = source;
  interval = in_.interval;
  open_time = time_or_zero km.open_time;
  close_time = time_or_zero km.close_time;
  open_price = trim_space km.open_price;
  high = trim_space km.high;
  low = trim_space km.low;
  close_price = trim_space km.close_price;
  volume = trim_space km.volume;
  quote_volume = trim_space km.quote_volume;
  trade_count = km.trade_count;
  is_closed = km.is_closed;
  revision = km.revision;
  kafka_topic = msg.topic;
  kafka_partition = msg.partition;
  kafka_offset = msg.offset;
}

abbrev pub decoded : Result String KlineMessage → Result BarError KlineMessage
decoded (ok km) = ok km
decoded (err e) = err (rejected e)

module _ (big : BigFloat) (decode_kline : List ℕ → Result String KlineMessage) where
  unfoldable pub build_kline : GroupInput → Message → Result BarError Kline
  unfolding validate_kline to_kline
  build_kline in_ msg = decoded (decode_kline msg.value) >>= λ km.
      validate_kline big km in_ >>= λ source. ok (to_kline km in_ msg source)
