-- ===== src/Worker/Life.antt =====
-- internal/runtime/worker.go: the life of a group worker, the goroutine of `run` beside the callers of
-- `Stop`. A step is what one of them does without the other between.
pub mod Terminal
use market_data_backend.Prelude.{
  String, Bool, true, false, Option, none, some, List, [], ◌∷◌, ◌≡◌, if◌then◌else◌,
}
use market_data_backend.Prelude.Text.{prefixed}
use market_data_backend.Model.ActualStatus
use market_data_backend.Worker.State.{
  WorkerState, starting, running, stopping, stopped, error, terminal,
}

-- What `leaseLoop` returns.
pub record Exit : Type 0 where
  pub state : WorkerState
  pub status : String
  pub last_err : String

-- What the store answers to `RenewGroupLease`.
pub data Renewal : Type 0 where
  renewed : Renewal
  lost : Renewal
  renew_failed : String → Renewal

abbrev pub graceful : Exit
graceful = record { state = stopped; status = ActualStatus.stopped; last_err = "" }

-- One tick of `leaseLoop`, with whether the context is done; `none`: the loop goes on.
unfoldable pub on_tick : (cancelled : Bool) → Renewal → Option Exit
on_tick cancelled renewed = none
on_tick cancelled lost =
    some (record { state = error; status = ActualStatus.error; last_err = "lease lost" })
on_tick cancelled (renew_failed e) = some (
    if cancelled then graceful else record {
      state = error;
      status = ActualStatus.error;
      last_err = prefixed "renew lease: " e;
    })

-- Where `run` is.
pub data Place : Type 0 where
  not_begun : Place
  begun : Place
  set_up : Place
  renewing : Place
  leaving : Exit → Place
  finishing : Exit → Place
  reporting : Exit → Place
  over : Place

-- `inputs_running`: the input manager is started and not yet stopped. `reports` are the statuses that
-- were reported for all inputs, the newest first.
pub record Life : Type 0 where
  pub place : Place
  pub state : WorkerState
  pub consumption_enabled : Bool
  pub inputs_running : Bool
  pub cancelled : Bool
  pub reports : List String

unfoldable pub new_life : Bool → Life
new_life consumption_enabled = record {
  place = not_begun;
  state = starting;
  consumption_enabled = consumption_enabled;
  inputs_running = false;
  cancelled = false;
  reports = [];
}

-- What `Stop` does to the state of the worker.
abbrev pub on_stop : WorkerState → WorkerState
on_stop starting = stopping
on_stop running = stopping
on_stop stopping = stopping
on_stop stopped = stopped
on_stop error = error

-- Once the worker runs: all inputs are reported as running, but for a worker that consumes.
abbrev pub enter : Life → Life
enter l = record l {
  place = set_up;
  state = running;
  reports = if l.consumption_enabled then l.reports else ActualStatus.running ∷ l.reports;
}

-- After a tick.
abbrev pub ticked : Life → Option Exit → Life
ticked l none = l
ticked l (some exit) = record l { place = leaving exit }

pub data Step (l : Life) : Life → Type 0 where
  begin :
      l.place ≡ not_begun
      → Step l (record l {
        place = begun;
        state = starting;
        reports = ActualStatus.starting ∷ l.reports;
      })
  entered : l.place ≡ begun → Step l (enter l)
  inputs_started :
      l.place ≡ set_up
      → Step l (record l { place = renewing; inputs_running = l.consumption_enabled })
  tick : (answer : Renewal) → l.place ≡ renewing → Step l (ticked l (on_tick l.cancelled answer))
  context_done :
      l.place ≡ renewing → l.cancelled ≡ true → Step l (record l { place = leaving graceful })
  inputs_stopped :
      (exit : Exit)
      → l.place ≡ leaving exit
      → Step l (record l { place = finishing exit; inputs_running = false })
  finish :
      (exit : Exit)
      → l.place ≡ finishing exit
      → Step l (record l { place = reporting exit; state = exit.state })
  reported :
      (exit : Exit)
      → l.place ≡ reporting exit
      → Step l (record l { place = over; reports = exit.status ∷ l.reports })
  stop : Step l (record l { state = on_stop l.state; cancelled = true })
  parent_cancelled : Step l (record l { cancelled = true })

pub data Steps (l : Life) : Life → Type 0 where
  here : Steps l l
  later : {m n : Life} → Steps l m → Step m n → Steps l n
