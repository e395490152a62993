-- ===== src/Model/StreamKey.antt =====
-- internal/model/streamkey.go: identifiers derived from names, and the text form of an input
-- stream's kind and interval.
pub mod RoundTrip
use Prim.Native.String.{◌++◌}
use market_data_backend.Prelude.{
  String, Bool, true, Option, none, some, Result, ok, err, ◌==◌, String_eq, if◌then◌else◌,
}
use market_data_backend.Prelude.Text.{trim_space, is_empty, strip_prefix}
use market_data_backend.Model.StreamKind

pub data KeyError : Type 0 where
  interval_not_allowed : String → KeyError
  interval_required : KeyError
  invalid_stream_kind : String → KeyError
  interval_missing_in_key : String → KeyError
  unrecognized_stream_key : String → KeyError

abbrev pub kline_stream_key_prefix : String
kline_stream_key_prefix = "kline_"

unfoldable pub new_group_id : String → String → String → String
new_group_id exchange market_type symbol =
    trim_space exchange ++ (":" ++ (trim_space market_type ++ (":" ++ trim_space symbol)))

unfoldable pub new_input_id : String → String → String
new_input_id group_id stream_key = group_id ++ (":" ++ stream_key)

unfoldable pub default_kafka_group_id : String → String → String
default_kafka_group_id group_id stream_key = "md-runtime." ++ (group_id ++ ("." ++ stream_key))

-- The first case of both switches: a kind that stands as its own key.
unfoldable pub is_plain_kind : String → Bool
is_plain_kind kind =
    if kind == StreamKind.trade
    then true
    else if kind == StreamKind.order_book_delta
    then true
    else kind == StreamKind.order_book_snapshot

unfoldable pub stream_key_for : String → String → Result KeyError String
stream_key_for kind interval =
    if is_plain_kind kind
    then (if is_empty interval then ok kind else err (interval_not_allowed kind))
    else if kind == StreamKind.kline
    then (if is_empty interval
        then err interval_required
        else ok (kline_stream_key_prefix ++ interval))
    else err (invalid_stream_kind kind)

-- What follows the prefix `kline_`, if the key has it.
unfoldable pub parse_kline_key : String → Option String → Result KeyError (String × String)
parse_kline_key stream_key none = err (unrecognized_stream_key stream_key)
parse_kline_key stream_key (some interval) =
    if is_empty interval
    then err (interval_missing_in_key stream_key)
    else ok (StreamKind.kline, interval)

unfoldable pub parse_stream_key : String → Result KeyError (String × String)
unfolding parse_kline_key
parse_stream_key stream_key =
    if is_plain_kind stream_key
    then ok (stream_key, "")
    else parse_kline_key stream_key (strip_prefix kline_stream_key_prefix stream_key)
