-- ===== src/Tests/Lives.antt =====
-- A worker that loses its lease and is stopped afterwards.
use market_data_backend.Prelude.{true, false, [], ◌∷◌, ◌≡◌, refl}
use market_data_backend.Worker.State
use market_data_backend.Worker.State.{error}
use market_data_backend.Worker.Life
use market_data_backend.Worker.Life.{
  Exit, lost, Life, new_life, enter, Steps, here, later, begin, entered, inputs_started, tick,
  inputs_stopped, finish, stop,
}
use market_data_backend.Worker.Life.Terminal.{terminal-IsFinal}

abbrev lost_lease : Exit
lost_lease = record { state = error; status = "error"; last_err = "lease lost" }

-- The states on the way.
abbrev first : Life
first = record (new_life true) {
  place = Life.begun;
  state = State.starting;
  reports = "starting" ∷ [];
}

abbrev second : Life
second = record (enter first) { place = Life.renewing; inputs_running = true }

abbrev third : Life
third = record second { place = Life.finishing lost_lease; inputs_running = false }

abbrev failed : Life
failed = record third { place = Life.reporting lost_lease; state = error }

way : Steps (new_life true) failed
unfolding new_life Life.on_tick
way =
    later
      (later
        (later (later (later (later here (begin refl)) (entered refl)) (inputs_started refl))
          (tick lost refl))
        (inputs_stopped lost_lease refl))
      (finish lost_lease refl)

abbrev stopped_late : Life
stopped_late = record failed { cancelled = true }

terminal-IsFinal_example : (stopped_late.state ≡ error) × (stopped_late.inputs_running ≡ false)
unfolding State.terminal
terminal-IsFinal_example = terminal-IsFinal true failed stopped_late way refl (later here stop)
