-- ===== src/Model/ActualStatus.antt =====
-- internal/model/model.go: the observed status of an input stream.
use market_data_backend.Prelude.{String}

abbrev pub pending : String
pending = "pending"

abbrev pub starting : String
starting = "starting"

abbrev pub running : String
running = "running"

abbrev pub paused : String
paused = "paused"

abbrev pub error : String
error = "error"

abbrev pub stopped : String
stopped = "stopped"
