-- ===== src/Worker/State.antt =====
-- internal/runtime/worker.go: the life cycle states of a group worker.
use market_data_backend.Prelude.{Bool, true, false}

pub data WorkerState : Type 0 where
  starting : WorkerState
  running : WorkerState
  stopping : WorkerState
  stopped : WorkerState
  error : WorkerState

unfoldable pub terminal : WorkerState → Bool
terminal stopped = true
terminal error = true
terminal _ = false
