-- ===== src/Tests/Samples.antt =====
-- Concrete values that the tests share: whole-number prices, a book and its deltas.
use Prim.Native.Char.{code}
use market_data_backend.Prelude.{
  ℕ, ◌+◌, ◌-◌, ◌*◌, String, true, List, [], Option, none, some, ◌≡◌, ◌⊎◌, arith, leb, if◌then◌else◌,
}
use market_data_backend.Prelude.Int.{pos}
use market_data_backend.Model.{PriceLevel, OrderBookDelta, OrderBookSnapshot}
use market_data_backend.Numeric.{BigFloat}

-- Decimal digits as a number; the floats of the tests are whole.
abbrev digits_from : ℕ → String → Option ℕ
digits_from n String.[] = some n
digits_from n (String.◌∷◌ c s) =
    let rest = digits_from (n * 10 + (code c - 48)) s in
    if leb 48 (code c) then (if leb (code c) 57 then rest else none) else none

pub leb_total : (x y : ℕ) → (leb x y ≡ true) ⊎ (leb y x ≡ true)
leb_total x y = ground arith

pub leb_trans : (x y z : ℕ) → leb x y ≡ true → leb y z ≡ true → leb x z ≡ true
leb_trans x y z p q = ground arith

abbrev pub whole : BigFloat
whole = record {
  Float = ℕ;
  zero_float = 0;
  parse_float = digits_from 0;
  leb_float = leb;
  leb_total = leb_total;
  leb_trans = leb_trans;
}

abbrev pub level : String → String → PriceLevel
level price quantity = record { price = price; quantity = quantity }

abbrev pub delta_at : ℕ → List PriceLevel → List PriceLevel → OrderBookDelta
delta_at n bids asks = record {
  group_id = "g";
  input_id = "i";
  event_time = pos 1;
  exchange_time = none;
  local_receive_time = none;
  raw_event_id = "";
  first_update_id = none;
  last_update_id = none;
  prev_update_id = none;
  sequence = some (pos n);
  bids = bids;
  asks = asks;
  raw_payload = [];
  kafka_topic = "t";
  kafka_partition = 0;
  kafka_offset = pos n;
}

abbrev pub snapshot_at : ℕ → List PriceLevel → List PriceLevel → OrderBookSnapshot
snapshot_at n bids asks = record {
  group_id = "g";
  input_id = "i";
  snapshot_time = pos 1;
  sequence = some (pos n);
  bids = bids;
  asks = asks;
}
