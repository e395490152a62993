-- ===== src/Model/TradeSide.antt =====
-- internal/model/model.go: the canonical sides of a trade.
use market_data_backend.Prelude.{String}

abbrev pub buy : String
buy = "buy"

abbrev pub sell : String
sell = "sell"
