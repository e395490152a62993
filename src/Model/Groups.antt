-- ===== src/Model/Groups.antt =====
-- internal/model/model.go: market groups, their inputs, nodes, leases and the observed status.
use market_data_backend.Prelude.{ℕ, String, List, Option, Bool}
use market_data_backend.Prelude.Int.{ℤ}
use market_data_backend.Model.Facts.{Time}

pub record GroupInput : Type 0 where
  pub input_id : String
  pub group_id : String
  pub stream_key : String
  pub stream_kind : String
  pub interval : String
  pub enabled : Bool
  pub kafka_cluster : String
  pub kafka_topic : String
  pub kafka_group_id : String
  pub desired_status : String
  pub schema_version : ℤ

pub record MarketGroup : Type 0 where
  pub group_id : String
  pub exchange : String
  pub market_type : String
  pub symbol : String
  pub base_asset : String
  pub quote_asset : String
  pub desired_status : String
  pub weight : ℤ
  pub inputs : List GroupInput

pub record RuntimeCapacity : Type 0 where
  pub current_groups : ℕ
  pub current_weight : ℕ

pub record GroupLease : Type 0 where
  pub group_id : String
  pub node_id : String
  pub lease_expires_at : Time
  pub version : ℤ
  pub acquired_at : Time
  pub updated_at : Time

pub record StreamRuntimeStatus : Type 0 where
  pub input_id : String
  pub group_id : String
  pub stream_key : String
  pub node_id : String
  pub actual_status : String
  pub kafka_partition : Option ℕ
  pub kafka_lag : Option ℤ
  pub committed_offset : Option ℤ
  pub high_watermark_offset : Option ℤ
  pub last_event_time : Option Time
  pub last_processed_time : Option Time
  pub last_error : String
