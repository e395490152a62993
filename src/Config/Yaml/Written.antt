-- ===== src/Config/Yaml/Written.antt =====
-- A configuration written out as a YAML file.
use market_data_backend.Prelude.{◌≡◌, ◌⊎◌, false, All, List, String, [], ◌∷◌, some}
use market_data_backend.Prelude.Int.{ℤ}
use market_data_backend.Config.{Config, Parsers, is_blank}
use market_data_backend.Config.Yaml.{YamlConfig}
use market_data_backend.Config.Yaml.Settings.{IsReadBack}
use market_data_backend.Config.Yaml.Brokers.{IsBroker}

-- The file that states every setting of a configuration, durations as `format` writes them.
abbrev pub yaml_of : (ℤ → String) → Config → YamlConfig
yaml_of format c = record {
  mode = c.mode;
  http_addr = c.http_addr;
  metrics_addr = c.metrics_addr;
  dsn = c.database_dsn;
  max_conns = some c.db_max_conns;
  min_conns = some c.db_min_conns;
  connect_timeout = format c.db_connect_timeout;
  kafka_clusters = ("default", c.kafka_brokers) ∷ [];
  node_id = c.runtime_node_id;
  max_groups = some c.runtime_max_groups;
  max_weight = some c.runtime_max_weight;
  lease_ttl = format c.lease_ttl;
  lease_renew_interval = format c.lease_renew_interval;
  reconcile_interval = format c.reconcile_interval;
  heartbeat_interval = format c.heartbeat_interval;
  shutdown_timeout = format c.shutdown_timeout;
  status_report_interval = format c.input_status_report_interval;
  input_reconcile = format c.input_reconcile_interval;
  trade_size = some c.trade_batch_size;
  trade_flush_interval = format c.trade_batch_flush_interval;
  kline_size = some c.kline_batch_size;
  kline_flush_interval = format c.kline_batch_flush_interval;
  order_book_delta_size = some c.order_book_delta_batch_size;
  order_book_delta_flush_interval = format c.order_book_delta_flush_interval;
  snapshot_interval = format c.order_book_snapshot_interval;
  delta_retention = format c.order_book_delta_retention;
  delta_partition_interval = format c.order_book_delta_partition_interval;
  partition_maintenance_interval = format c.partition_maintenance_interval;
  partition_precreate_horizon = format c.partition_precreate_horizon;
  log_level = c.log_level;
  log_format = c.log_format;
}

-- A configuration whose texts and numbers stand in a file as they are: the texts are not blank, and
-- every number is read back as it is printed.
pub record IsWritable (p : Parsers) (itoa format : ℤ → String) (c : Config) : Type 0 where
  pub mode : is_blank c.mode ≡ false
  pub http_addr : is_blank c.http_addr ≡ false
  pub metrics_addr : is_blank c.metrics_addr ≡ false
  pub database_dsn : is_blank c.database_dsn ≡ false
  pub log_level : is_blank c.log_level ≡ false
  pub log_format : is_blank c.log_format ≡ false
  pub db_max_conns : IsReadBack p.parse_int32 itoa c.db_max_conns
  pub db_min_conns : IsReadBack p.parse_int32 itoa c.db_min_conns
  pub runtime_max_groups : IsReadBack p.atoi itoa c.runtime_max_groups
  pub runtime_max_weight : IsReadBack p.atoi itoa c.runtime_max_weight
  pub trade_batch_size : IsReadBack p.atoi itoa c.trade_batch_size
  pub kline_batch_size : IsReadBack p.atoi itoa c.kline_batch_size
  pub order_book_delta_batch_size : IsReadBack p.atoi itoa c.order_book_delta_batch_size
  pub db_connect_timeout : IsReadBack p.parse_duration format c.db_connect_timeout
  pub lease_ttl : IsReadBack p.parse_duration format c.lease_ttl
  pub lease_renew_interval : IsReadBack p.parse_duration format c.lease_renew_interval
  pub reconcile_interval : IsReadBack p.parse_duration format c.reconcile_interval
  pub heartbeat_interval : IsReadBack p.parse_duration format c.heartbeat_interval
  pub shutdown_timeout : IsReadBack p.parse_duration format c.shutdown_timeout
  pub input_status_report_interval :
      IsReadBack p.parse_duration format c.input_status_report_interval
  pub input_reconcile_interval : IsReadBack p.parse_duration format c.input_reconcile_interval
  pub trade_batch_flush_interval : IsReadBack p.parse_duration format c.trade_batch_flush_interval
  pub kline_batch_flush_interval : IsReadBack p.parse_duration format c.kline_batch_flush_interval
  pub order_book_delta_flush_interval :
      IsReadBack p.parse_duration format c.order_book_delta_flush_interval
  pub order_book_snapshot_interval :
      IsReadBack p.parse_duration format c.order_book_snapshot_interval
  pub order_book_delta_retention : IsReadBack p.parse_duration format c.order_book_delta_retention
  pub order_book_delta_partition_interval :
      IsReadBack p.parse_duration format c.order_book_delta_partition_interval
  pub partition_maintenance_interval :
      IsReadBack p.parse_duration format c.partition_maintenance_interval
  pub partition_precreate_horizon : IsReadBack p.parse_duration format c.partition_precreate_horizon
  pub runtime_node_id : c.runtime_node_id ≡ "" ⊎ is_blank c.runtime_node_id ≡ false
  pub broker : String
  pub brokers : List String
  pub kafka_brokers : c.kafka_brokers ≡ broker ∷ brokers
  pub whole : All IsBroker (broker ∷ brokers)
