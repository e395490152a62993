-- ===== src/Input/Trace/Prepare.antt =====
-- `ensureProgress` and `prepare` leave the trace alone, and a record stands for its message.
use Prim.Native.String.{◌++◌}
use market_data_backend.Prelude.{
  ℕ, ℕ_eq, String, Bool, true, false, List, [], ◌∷◌, Option, none, some, Result, ok, err, ◌≡◌, refl,
  Bool-cases, inl, inr, if◌then◌else◌, ◌==◌, String_eq, is_some,
}
use market_data_backend.Prelude.Map
use market_data_backend.Prelude.Int.{pos, leb_ℤ}
use market_data_backend.Model.StreamKind
use market_data_backend.Model.ActualStatus
use market_data_backend.Model.{Trade, Kline, OrderBookDelta, StreamWriteProgress}
use market_data_backend.Sequence.{check_delta_continuity}
use market_data_backend.Input.Types.{Message, Builders, InputWorker}
use market_data_backend.Input.Status.{set_status}
use market_data_backend.Input.Prepare.{
  LoadAttempt, loaded, load_failed, load_cancelled, install_progress, load_progress, flag,
  ensure_progress, or_zero, Prepared, prepared, failed, bare_record, trade_record, kline_record,
  gated_delta, delta_record, prepare,
}
use market_data_backend.Input.Trace.Grow.{Grows, Grows-refl, Grows-trans, Grows-same}

install_progress-Grows :
    (v : InputWorker) (p : ℕ) (progress : Option StreamWriteProgress)
    → Grows v (install_progress v p progress)
unfolding install_progress
install_progress-Grows v p none = Grows-same v (install_progress v p none) refl refl
install_progress-Grows v p (some progress) =
    Grows-same v (install_progress v p (some progress)) refl refl

load_progress-Grows :
    (v : InputWorker) (p : ℕ) (attempts : List LoadAttempt) → Grows v (load_progress v p attempts).0
unfolding load_progress set_status
load_progress-Grows v p [] = Grows-refl v
load_progress-Grows v p (loaded progress ∷ _) = install_progress-Grows v p progress
load_progress-Grows v p (load_failed e ∷ attempts) =
    let marked = set_status v ActualStatus.error ("load progress: " ++ e) in
    Grows-trans (Grows-same v marked refl refl) (load_progress-Grows marked p attempts)
load_progress-Grows v p (load_cancelled ∷ _) = Grows-refl v

pub ensure_progress-Grows :
    (v : InputWorker) (p : ℕ) (attempts : List LoadAttempt)
    → Grows v (ensure_progress v p attempts).0
unfolding ensure_progress
ensure_progress-Grows v p attempts = elim (Bool-cases (flag (Map.lookup p v.loaded_progress))) [
  | inl known ↦ rw known (Grows-refl v)
  | inr unknown ↦ rw unknown (load_progress-Grows v p attempts)
]

abbrev pub StandsFor : Message → Prepared → Type 0
StandsFor msg (prepared r) = r.msg ≡ msg
StandsFor msg (failed stage message) = Unit

-- The worker grew, and the record, if there is one, stands for the message.
pub record IsReady (v : InputWorker) (msg : Message) (r : InputWorker × Prepared) : Type 0 where
  pub grows : Grows v r.0
  pub stands : StandsFor msg r.1

same-IsReady :
    (v : InputWorker) (msg : Message) (p : Prepared) → StandsFor msg p → IsReady v msg (v, p)
same-IsReady v msg p s = record { grows = Grows-refl v; stands = s }

trade-StandsFor : (msg : Message) (r : Result String Trade) → StandsFor msg (trade_record msg r)
trade-StandsFor msg (ok t) = refl
trade-StandsFor msg (err e) = tt

kline-StandsFor : (msg : Message) (r : Result String Kline) → StandsFor msg (kline_record msg r)
kline-StandsFor msg (ok k) = refl
kline-StandsFor msg (err e) = tt

if-IsReady :
    (b : Bool) (v : InputWorker) (msg : Message) (x y : InputWorker × Prepared)
    → IsReady v msg x
    → IsReady v msg y
    → IsReady v msg (if b then x else y)
if-IsReady true v msg x y p q = p
if-IsReady false v msg x y p q = q

gated_delta-IsReady :
    (v : InputWorker) (msg : Message) (d : OrderBookDelta) (r : Result String Bool)
    → IsReady v msg (gated_delta v msg d r)
gated_delta-IsReady v msg d (ok true) = record {
  grows = Grows-same v (gated_delta v msg d (ok true)).0 refl refl;
  stands = refl;
}
gated_delta-IsReady v msg d (ok false) = same-IsReady v msg (gated_delta v msg d (ok false)).1 refl
gated_delta-IsReady v msg d (err e) =
    let skipped = prepared (bare_record msg d.event_time) in
    let stop = failed "sequence" e in
    if-IsReady (is_some v.snapshot_reset_seq) v msg (v, skipped)
      (if is_some v.snapshot_reset_last_update then (v, skipped) else (v, stop))
      (same-IsReady v msg skipped refl)
      (if-IsReady (is_some v.snapshot_reset_last_update) v msg (v, skipped) (v, stop)
        (same-IsReady v msg skipped refl) (same-IsReady v msg stop tt))

delta_record-IsReady :
    (v : InputWorker) (msg : Message) (r : Result String OrderBookDelta)
    → IsReady v msg (delta_record v msg r)
delta_record-IsReady v msg (err e) = same-IsReady v msg (failed "decode" e) tt
delta_record-IsReady v msg (ok d) =
    gated_delta-IsReady v msg d
      (check_delta_continuity (Map.lookup msg.partition v.last_delta_by_partition) d)

pub prepare-IsReady :
    (b : Builders) (v : InputWorker) (msg : Message) → IsReady v msg (prepare b v msg)
unfolding prepare
prepare-IsReady b v msg =
    if-IsReady (leb_ℤ msg.offset (or_zero (Map.lookup msg.partition v.durable_by_partition))) v msg
      (v, prepared (bare_record msg (pos 0))) _ (same-IsReady v msg _ refl)
      (if-IsReady (v.input.stream_kind == StreamKind.trade) v msg
        (v, trade_record msg (b.build_trade v.input msg)) _
        (same-IsReady v msg _ (trade-StandsFor msg (b.build_trade v.input msg)))
        (if-IsReady (v.input.stream_kind == StreamKind.kline) v msg
          (v, kline_record msg (b.build_kline v.input msg)) _
          (same-IsReady v msg _ (kline-StandsFor msg (b.build_kline v.input msg)))
          (if-IsReady (v.input.stream_kind == StreamKind.order_book_delta) v msg
            (delta_record v msg (b.build_order_book_delta v.input msg)) _
            (delta_record-IsReady v msg (b.build_order_book_delta v.input msg))
            (same-IsReady v msg _ tt))))
