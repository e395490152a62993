-- ===== src/Model/StreamKind.antt =====
-- internal/model/model.go: the values of `stream_kind`.
use market_data_backend.Prelude.{String}

abbrev pub trade : String
trade = "trade"

abbrev pub kline : String
kline = "kline"

abbrev pub order_book_delta : String
order_book_delta = "orderbook_delta"

abbrev pub order_book_snapshot : String
order_book_snapshot = "orderbook_snapshot"
