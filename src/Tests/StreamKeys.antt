-- ===== src/Tests/StreamKeys.antt =====
-- internal/model/streamkey.go at concrete keys.
use market_data_backend.Prelude.{◌≡◌, refl, ok}
use market_data_backend.Prelude.Text.{strip_prefix}
use market_data_backend.Model.StreamKey.{is_plain_kind, stream_key_for, parse_stream_key}
use market_data_backend.Model.StreamKey.RoundTrip.{
  parse_stream_key-stream_key_for, stream_key_for-parse_stream_key,
}

kline_key : stream_key_for "kline" "1m" ≡ ok "kline_1m"
unfolding stream_key_for is_plain_kind
kline_key = refl

parse_kline_1m : parse_stream_key "kline_1m" ≡ ok ("kline", "1m")
unfolding parse_stream_key is_plain_kind strip_prefix
parse_kline_1m = refl

parse_stream_key-stream_key_for_example : parse_stream_key "kline_1m" ≡ ok ("kline", "1m")
parse_stream_key-stream_key_for_example =
    parse_stream_key-stream_key_for "kline" "1m" "kline_1m" kline_key

stream_key_for-parse_stream_key_example : stream_key_for "kline" "1m" ≡ ok "kline_1m"
stream_key_for-parse_stream_key_example =
    stream_key_for-parse_stream_key "kline" "1m" "kline_1m" parse_kline_1m
