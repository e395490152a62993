-- ===== src/Decode/Checked/Panics.antt =====
-- `validate` of a bar compares prices only after it knows that they are numbers.
use market_data_backend.Prelude.{
  String, Bool, true, false, Option, some, Result, ok, err, ◌>>=◌, ◌>>◌, ◌≡◌, ◌≢◌, refl, ap,
  if◌then◌else◌,
}
use market_data_backend.Numeric.{BigFloat, cmp_parsed, compare_numeric, parse_price}
use market_data_backend.Model.{GroupInput}
use market_data_backend.Model.StreamKind
use market_data_backend.Model.StreamKey.{KeyError, stream_key_for}
use market_data_backend.Decode.Decimal.{valid_positive_numeric}
use market_data_backend.Decode.Bar.{
  KlineMessage, kline_source_exchange, BarError, rejected, panics, stream_key_of, is_less,
  is_greater, refuse, require, check_frame, check_numbers, check_within, check_range,
  validate_kline,
}
use market_data_backend.Decode.Checked.Guards.{guard_passed}
use market_data_backend.Decode.Checked.Levels.{IsPositive, valid_positive_numeric-IsPositive}
use Prim.Native.Nat.{Ordering}

-- The call returned.
record Returns {ℓ} {A : Type ℓ} (r : Result BarError A) : Type ℓ where
  no_panic : r ≢ err panics

abbrev error_or {ℓ} : {A : Type ℓ} → BarError → Result BarError A → BarError
error_or d (ok x) = d
error_or d (err e) = e

err-injective {ℓ} :
    {A : Type ℓ} {a b : BarError} → ◌≡◌ {A = Result BarError A} (err a) (err b) → a ≡ b
err-injective {a = a} h = ap (error_or a) h

then_Returns {ℓ} :
    {A : Type ℓ} (check : Result BarError (Unit {0})) (next : Result BarError A)
    → Returns check
    → (check ≡ ok tt → Returns next)
    → Returns (check >> next)
then_Returns (ok u) next c f = f refl
then_Returns (err e) next c f = record { no_panic = λ h. c.no_panic (ap err (err-injective h)) }

require_then {ℓ} :
    {A : Type ℓ} (test : Bool) (e : String) (next : Result BarError A)
    → Returns next
    → Returns (require test e >> next)
require_then true e next c = c
require_then false e next c = record { no_panic = λ h. absurd (cc h) }

require-Returns : (test : Bool) (e : String) → Returns (require test e)
require-Returns true e = record { no_panic = λ h. absurd (cc h) }
require-Returns false e = record { no_panic = λ h. absurd (cc h) }

check_frame-Returns :
    (km : KlineMessage) (in_ : GroupInput) (key : String) → Returns (check_frame km in_ key)
unfolding check_frame
check_frame-Returns km in_ key = search (require_then, require-Returns) depth 10

module _ (big : BigFloat) where
  open big use {Float}

  check_numbers-Returns : (km : KlineMessage) → Returns (check_numbers big km)
  unfolding check_numbers
  check_numbers-Returns km = search (require_then, require-Returns) depth 10

  rejected_if : (b : Bool) (e : String) → Returns (if b then err (rejected e) else ok (tt {0}))
  rejected_if true e = record { no_panic = λ h. absurd (cc h) }
  rejected_if false e = record { no_panic = λ h. absurd (cc h) }

  refuse-Returns :
      (bad : Ordering → Bool) (o p : Option Float) (e : String) (u v : Float)
      → o ≡ some u
      → p ≡ some v
      → Returns (refuse bad (cmp_parsed big o p) e)
  unfolding cmp_parsed
  refuse-Returns bad o p e u v q r = rw (q, r) (rejected_if _ e)

  compared :
      (bad : Ordering → Bool) (a b e : String)
      → IsPositive big a
      → IsPositive big b
      → Returns (refuse bad (compare_numeric big a b) e)
  unfolding compare_numeric
  compared bad a b e p q =
      refuse-Returns bad (parse_price big a) (parse_price big b) e p.0 q.0 p.1 q.1

  check_within-Returns :
      (km : KlineMessage) (name value : String)
      → IsPositive big value
      → IsPositive big km.low
      → IsPositive big km.high
      → Returns (check_within big km name value)
  unfolding check_within
  check_within-Returns km name value v low high =
      then_Returns _ _ (compared is_less value km.low _ v low)
        (λ _. compared is_greater value km.high _ v high)

  record ArePositive (km : KlineMessage) : Type 0 where
    open_positive : IsPositive big km.open_price
    high_positive : IsPositive big km.high
    low_positive : IsPositive big km.low
    close_positive : IsPositive big km.close_price

  check_numbers-ArePositive : (km : KlineMessage) → check_numbers big km ≡ ok tt → ArePositive km
  unfolding check_numbers
  check_numbers-ArePositive km h =
      let open_ = guard_passed (valid_positive_numeric big km.open_price) _ _ tt h in
      let high = guard_passed (valid_positive_numeric big km.high) _ _ tt open_.1 in
      let low = guard_passed (valid_positive_numeric big km.low) _ _ tt high.1 in
      let close = guard_passed (valid_positive_numeric big km.close_price) _ _ tt low.1 in
      record {
        open_positive = valid_positive_numeric-IsPositive big km.open_price open_.0;
        high_positive = valid_positive_numeric-IsPositive big km.high high.0;
        low_positive = valid_positive_numeric-IsPositive big km.low low.0;
        close_positive = valid_positive_numeric-IsPositive big km.close_price close.0;
      }

  check_range-Returns : (km : KlineMessage) → ArePositive km → Returns (check_range big km)
  unfolding check_range
  check_range-Returns km p =
      then_Returns _ _ (compared is_less km.high km.low _ p.high_positive p.low_positive) λ _.
        then_Returns _ _
          (check_within-Returns km "open" km.open_price p.open_positive p.low_positive
            p.high_positive)
          λ _.
            check_within-Returns km "close" km.close_price p.close_positive p.low_positive
              p.high_positive

  with_key :
      (km : KlineMessage) (in_ : GroupInput) (key : Result KeyError String)
      → Returns (
          stream_key_of key >>= λ k.
          check_frame km in_ k
          >> check_numbers big km
          >> check_range big km
          >> ok kline_source_exchange)
  with_key km in_ (err e) = record { no_panic = λ h. absurd (cc h) }
  with_key km in_ (ok key) = then_Returns _ _ (check_frame-Returns km in_ key) λ _.
      then_Returns _ _ (check_numbers-Returns km) λ numbers.
        then_Returns _ _ (check_range-Returns km (check_numbers-ArePositive km numbers))
          λ _. record { no_panic = λ h. absurd (cc h) }

  -- The checks of a bar return for every message and every input: no comparison meets a price that
  -- `big.ParseFloat` refused, which would be a nil pointer.
  pub validate_kline-returns :
      (km : KlineMessage) (in_ : GroupInput) → validate_kline big km in_ ≢ err panics
  unfolding validate_kline
  validate_kline-returns km in_ =
      (with_key km in_ (stream_key_for StreamKind.kline in_.interval)).no_panic
