-- ===== src/Model/NodeStatus.antt =====
-- internal/model/model.go: the lifecycle of a runtime node.
use market_data_backend.Prelude.{String}

abbrev pub alive : String
alive = "alive"

abbrev pub draining : String
draining = "draining"

abbrev pub dead : String
dead = "dead"
