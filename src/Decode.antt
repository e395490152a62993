-- ===== src/Decode.antt =====
-- internal/runtime/decode.go: what the decoders share. The JSON decoder of Go's library, with the
-- lenient text, number and time fields, is a parameter of the modules below.
pub mod Decimal
pub mod Trade
pub mod Bar
pub mod Book
pub mod Checked
use market_data_backend.Prelude.{Bool, true, false, Option, none, some}
use market_data_backend.Prelude.Int.{ℤ}
use market_data_backend.Model.{Time}

-- A `flexTime`: `none` where `set` is false.
abbrev pub FlexTime : Type 0
FlexTime = Option Time

-- The optional pointer to a `flexTime`, as the fact rows keep it.
abbrev pub optional_time : Option FlexTime → Option Time
optional_time (some (some t)) = some t
optional_time _ = none
