-- ===== src/Model/DesiredStatus.antt =====
-- internal/model/model.go: the values of `desired_status`.
use market_data_backend.Prelude.{String}

abbrev pub running : String
running = "running"

abbrev pub paused : String
paused = "paused"

abbrev pub disabled : String
disabled = "disabled"
