-- ===== src/Tests/Inputs.antt =====
-- A worker of trades on fixed rounds: one trade that waits for its batch, one bad message.
use market_data_backend.Prelude.{
  ℕ, String, true, false, List, [], ◌∷◌, none, Result, ok, err, refl, inl,
}
use market_data_backend.Prelude.Map
use market_data_backend.Prelude.Int.{pos}
use market_data_backend.Model.{Trade, MarketGroup, GroupInput}
use market_data_backend.Model.StreamKind
use market_data_backend.Model.TradeSide
use market_data_backend.Model.DesiredStatus
use market_data_backend.Input.Types.{Message, Builders}
use market_data_backend.Input.Status.{new_input_worker}
use market_data_backend.Input.Prepare.{loaded}
use market_data_backend.Input.Flush.{FlushAnswers, succeeded, failed_with}
use market_data_backend.Input.Consume.{
  Loop, done, refused, Answers, Round, fetched, fetch_failed, running, consume, finish,
}
use market_data_backend.Input.Trace.{IsJustified}
use market_data_backend.Input.Trace.Steps.{Covered}
use market_data_backend.Input.Trace.Consume.{finish-IsJustified, consume-Covered}

abbrev input : GroupInput
input = record {
  input_id = "binance:spot:BTC:trade";
  group_id = "binance:spot:BTC";
  stream_key = "trade";
  stream_kind = StreamKind.trade;
  interval = "";
  enabled = true;
  kafka_cluster = "k";
  kafka_topic = "t";
  kafka_group_id = "";
  desired_status = DesiredStatus.running;
  schema_version = pos 1;
}

abbrev group : MarketGroup
group = record {
  group_id = "binance:spot:BTC";
  exchange = "binance";
  market_type = "spot";
  symbol = "BTC";
  base_asset = "BTC";
  quote_asset = "USDT";
  desired_status = DesiredStatus.running;
  weight = pos 1;
  inputs = input ∷ [];
}

abbrev trade_of : Message → Trade
trade_of msg = record {
  group_id = "binance:spot:BTC";
  input_id = "binance:spot:BTC:trade";
  event_time = pos 1;
  exchange_time = none;
  local_receive_time = none;
  trade_id = "";
  raw_trade_id = "";
  price = "1";
  quantity = "1";
  side = TradeSide.buy;
  is_aggregated = false;
  kafka_topic = msg.topic;
  kafka_partition = msg.partition;
  kafka_offset = msg.offset;
  schema_version = pos 1;
}

-- An empty message does not decode.
abbrev decode : List ℕ → Message → Result String Trade
decode [] msg = err "empty"
decode (b ∷ bs) msg = ok (trade_of msg)

abbrev builders : Builders
builders = record {
  build_trade = λ in_ msg. decode msg.value msg;
  build_kline = λ in_ msg. err "no bars";
  build_order_book_delta = λ in_ msg. err "no deltas";
}

abbrev message_at : ℕ → List ℕ → Message
message_at n value = record {
  topic = "t";
  partition = 0;
  offset = pos n;
  value = value;
  high_watermark = pos 9;
}

abbrev flush_answers : FlushAnswers
flush_answers = record {
  writes = failed_with "busy" ∷ succeeded ∷ [];
  commits = succeeded ∷ [];
  now = pos 5;
}

abbrev answers : Answers
answers = record {
  switch = flush_answers;
  loads = loaded none ∷ [];
  early = flush_answers;
  full = flush_answers;
  poison_write = done;
  poison_commit = refused "broker";
}

abbrev start : Loop
start =
    running
      (new_input_worker group input "node" (record { size = pos 2; flush_interval = pos 0 }) false)
      []

-- A trade, a bad message, a trade that is still pending.
abbrev rounds : List Round
rounds =
    fetched (message_at 1 (7 ∷ [])) answers
    ∷ fetch_failed "broker"
    ∷ fetched (message_at 2 []) answers
    ∷ fetched (message_at 3 (8 ∷ [])) answers
    ∷ []

finish-IsJustified_example :
    IsJustified (finish (consume builders start rounds) flush_answers).worker.log
unfolding new_input_worker
finish-IsJustified_example = finish-IsJustified builders start rounds flush_answers tt

consume-Covered_example :
    Covered
      (message_at 1 (7 ∷ []))
      (consume builders start rounds).pending
      (consume builders start rounds).worker
unfolding consume new_input_worker Map.lookup Map.insert
consume-Covered_example =
    consume-Covered builders start rounds (refl, (tt, (refl, (refl, tt)))) refl
      (message_at 1 (7 ∷ [])) (inl (inl refl))
