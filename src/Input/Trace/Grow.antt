-- ===== src/Input/Trace/Grow.antt =====
-- What every step of the worker does to its trace: it only adds effects, and justified ones.
use Prim.Native.String.{◌++◌}
use market_data_backend.Prelude.{
  String, Bool, true, false, List, [], ◌∷◌, ◌≡◌, refl, ◌∙◌, sym, subst, inr, if◌then◌else◌, ◌==◌,
  String_eq,
}
use market_data_backend.Model.ActualStatus
use market_data_backend.Model.StreamKind
use market_data_backend.Model.{OrderBookDelta}
use market_data_backend.Input.Types.{Message, PendingRecord, Effect, notified, InputWorker}
use market_data_backend.Input.Status.{set_status}
use market_data_backend.Input.Flush.{
  Attempt, succeeded, failed_with, cancelled, retry, note, notify, notify_batch, deltas_of,
}
use market_data_backend.Input.Trace.{Allowed, IsJustified, Settled}

pub data Extends (old : List Effect) : List Effect → Type 0 where
  here : Extends old old
  more : {log : List Effect} (effect : Effect) → Extends old log → Extends old (effect ∷ log)

Extends-trans : {a b c : List Effect} → Extends a b → Extends b c → Extends a c
Extends-trans p here = p
Extends-trans p (more effect q) = more effect (Extends-trans p q)

pub Settled-Extends : (m : Message) {a b : List Effect} → Extends a b → Settled m a → Settled m b
Settled-Extends m here s = s
Settled-Extends m (more effect p) s = inr (Settled-Extends m p s)

-- `w` comes from `v` by steps of the worker.
pub record Grows (v w : InputWorker) : Type 0 where
  pub extends : Extends v.log w.log
  pub justified : IsJustified v.log → IsJustified w.log
  pub same_batch : w.batch ≡ v.batch

pub Grows-refl : (v : InputWorker) → Grows v v
Grows-refl v = record { extends = here; justified = λ h. h; same_batch = refl }

pub Grows-trans : {u v w : InputWorker} → Grows u v → Grows v w → Grows u w
Grows-trans p q = record {
  extends = Extends-trans p.extends q.extends;
  justified = λ h. q.justified (p.justified h);
  same_batch = q.same_batch ∙ p.same_batch;
}

-- A step that leaves the trace alone.
pub Grows-same : (v w : InputWorker) → w.log ≡ v.log → w.batch ≡ v.batch → Grows v w
Grows-same v w e b = record {
  extends = subst (Extends v.log) (sym e) here;
  justified = subst IsJustified (sym e);
  same_batch = b;
}

pub Grows-note :
    (v : InputWorker) (effect : Effect) → Allowed effect v.log → Grows v (note v effect)
Grows-note v effect a = record {
  extends = more effect here;
  justified = λ h. (a, h);
  same_batch = refl;
}

pub retry-Grows :
    (what : String) (v : InputWorker) (as_ : List Attempt) → Grows v (retry what v as_).0
unfolding retry set_status
retry-Grows what v [] = Grows-refl v
retry-Grows what v (succeeded ∷ _) = Grows-refl v
retry-Grows what v (failed_with e ∷ attempts) =
    let marked = set_status v ActualStatus.error (what ++ e) in
    Grows-trans (Grows-same v marked refl refl) (retry-Grows what marked attempts)
retry-Grows what v (cancelled ∷ _) = Grows-refl v

notify-Grows : (v : InputWorker) (ds : List OrderBookDelta) → Grows v (notify v ds)
unfolding notify
notify-Grows v [] = Grows-refl v
notify-Grows v (d ∷ ds) =
    Grows-trans (Grows-note v (notified d) tt) (notify-Grows (note v (notified d)) ds)

Grows-if : (b : Bool) (v x y : InputWorker) → Grows v x → Grows v y → Grows v (if b then x else y)
Grows-if true v x y p q = p
Grows-if false v x y p q = q

pub notify_batch-Grows : (v : InputWorker) (rs : List PendingRecord) → Grows v (notify_batch v rs)
unfolding notify_batch
notify_batch-Grows v rs =
    let ds = deltas_of rs in
    let delta_kind = v.input.stream_kind == StreamKind.order_book_delta in
    Grows-if v.has_callback v (if delta_kind then notify v ds else v) v
      (Grows-if delta_kind v (notify v ds) v (notify-Grows v ds) (Grows-refl v)) (Grows-refl v)
