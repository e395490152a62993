-- ===== src/Model/StreamKey/RoundTrip.antt =====
-- internal/model/streamkey.go: `ParseStreamKey` and `StreamKeyFor` are inverse to each other.
use Prim.Native.String.{◌++◌}
use text.Mathlib.TextEquality.{eq_iff}
use market_data_backend.Prelude.{
  String, true, false, none, some, ok, String_eq, ◌≡◌, refl, inl, inr, ◌⊎◌, arith,
}
use market_data_backend.Prelude.Text.{
  strip_prefix, strip_prefix-append, append-strip_prefix, is_empty,
}
use market_data_backend.Model.StreamKind
use market_data_backend.Model.StreamKey.{
  kline_stream_key_prefix, is_plain_kind, stream_key_for, parse_stream_key,
}

plain-cases :
    (kind : String)
    → is_plain_kind kind ≡ true
    → (kind ≡ StreamKind.trade)
      ⊎ (kind ≡ StreamKind.order_book_delta)
      ⊎ (kind ≡ StreamKind.order_book_snapshot)
unfolding is_plain_kind
plain-cases kind h = ground (
  arith,
  eq_iff kind StreamKind.trade,
  eq_iff kind StreamKind.order_book_delta,
  eq_iff kind StreamKind.order_book_snapshot,
)

-- No plain kind begins with the kline prefix.
plain-strip_prefix :
    (key : String) → is_plain_kind key ≡ true → strip_prefix kline_stream_key_prefix key ≡ none
unfolding strip_prefix
plain-strip_prefix key h = elim (plain-cases key h) [
  | inl e ↦ rw e
  | inr (inl e) ↦ rw e
  | inr (inr e) ↦ rw e
]

prefix-plain : (interval : String) → is_plain_kind (kline_stream_key_prefix ++ interval) ≡ false
prefix-plain interval = ground (
  arith,
  plain-strip_prefix (kline_stream_key_prefix ++ interval),
  strip_prefix-append kline_stream_key_prefix interval,
)

kline-plain : is_plain_kind StreamKind.kline ≡ false
unfolding is_plain_kind
kline-plain = refl

empty-of_is_empty : (s : String) → is_empty s ≡ true → s ≡ ""
empty-of_is_empty String.[] h = refl
empty-of_is_empty (String.◌∷◌ c s) h = cc

-- A key that `StreamKeyFor` builds is read back as the kind and interval that it was built from.
pub parse_stream_key-stream_key_for :
    (kind interval key : String)
    → stream_key_for kind interval ≡ ok key
    → parse_stream_key key ≡ ok (kind, interval)
unfolding stream_key_for parse_stream_key
parse_stream_key-stream_key_for kind interval key h = ground (
  arith,
  eq_iff kind StreamKind.kline,
  empty-of_is_empty interval,
  prefix-plain interval,
  strip_prefix-append kline_stream_key_prefix interval,
)

-- The two ways in which a key is accepted.
parse_stream_key-cases :
    (kind interval key : String)
    → parse_stream_key key ≡ ok (kind, interval)
    → ((is_plain_kind key ≡ true) × (kind ≡ key) × (interval ≡ ""))
      ⊎ ((kind ≡ StreamKind.kline)
          × (is_empty interval ≡ false)
          × (strip_prefix kline_stream_key_prefix key ≡ some interval))
unfolding parse_stream_key
parse_stream_key-cases kind interval key h = ground arith

-- What `ParseStreamKey` reads from a key, `StreamKeyFor` turns into that key again.
pub stream_key_for-parse_stream_key :
    (kind interval key : String)
    → parse_stream_key key ≡ ok (kind, interval)
    → stream_key_for kind interval ≡ ok key
unfolding stream_key_for
stream_key_for-parse_stream_key kind interval key h =
    elim (parse_stream_key-cases kind interval key h) [
      | inl (plain, k, i) ↦ rw (k, i, plain) refl
      | inr (k, full, rest) ↦
          let e = append-strip_prefix kline_stream_key_prefix key interval rest in
          rw (k, kline-plain, full, e) refl
    ]
