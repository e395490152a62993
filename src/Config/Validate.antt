-- ===== src/Config/Validate.antt =====
-- internal/config/config.go: the checks of the settings.
use market_data_backend.Prelude.{
  String, Bool, true, false, not, List, [], ◌∷◌, Result, ok, guard, ◌>>◌, ◌==◌, String_eq, ◌&&◌,
  ◌||◌,
}
use market_data_backend.Prelude.Int.{ℤ, pos, ltb_ℤ, leb_ℤ, ℤ_eq}
use market_data_backend.Config.{
  Config, ConfigError, dsn_required, invalid_mode, not_positive, min_conns_out_of_range, no_broker,
  empty_broker, renew_not_below_ttl, partition_not_one_hour, negative_horizon, is_blank,
  mode_control_plane, mode_stream_runtime, hour,
}

-- `if value <= 0 { return error }`.
abbrev pub check_positive : String → ℤ → Result ConfigError (Unit {0})
check_positive name value = guard (ltb_ℤ (pos 0) value) (not_positive name)

-- The loops over the tables of settings; Go takes their entries in any order, which the name in the
-- error depends on.
unfoldable pub check_all_positive : List (String × ℤ) → Result ConfigError (Unit {0})
check_all_positive [] = ok tt
check_all_positive ((name, value) ∷ entries) =
    check_positive name value >> check_all_positive entries

unfoldable pub check_brokers : List String → Result ConfigError (Unit {0})
check_brokers [] = ok tt
check_brokers (broker ∷ brokers) =
    guard (not (is_blank broker)) empty_broker >> check_brokers brokers

abbrev pub is_nil : List String → Bool
is_nil [] = true
is_nil (x ∷ xs) = false

unfoldable pub batch_sizes : Config → List (String × ℤ)
batch_sizes c =
    ("TRADE_BATCH_SIZE", c.trade_batch_size)
    ∷ ("KLINE_BATCH_SIZE", c.kline_batch_size)
    ∷ ("ORDERBOOK_DELTA_BATCH_SIZE", c.order_book_delta_batch_size)
    ∷ []

unfoldable pub flush_intervals : Config → List (String × ℤ)
flush_intervals c =
    ("TRADE_BATCH_FLUSH_INTERVAL", c.trade_batch_flush_interval)
    ∷ ("KLINE_BATCH_FLUSH_INTERVAL", c.kline_batch_flush_interval)
    ∷ ("ORDERBOOK_DELTA_FLUSH_INTERVAL", c.order_book_delta_flush_interval)
    ∷ ("ORDERBOOK_SNAPSHOT_INTERVAL", c.order_book_snapshot_interval)
    ∷ ("ORDERBOOK_DELTA_RETENTION", c.order_book_delta_retention)
    ∷ ("PARTITION_MAINTENANCE_INTERVAL", c.partition_maintenance_interval)
    ∷ []

-- The first half of the checks, up to the brokers.
unfoldable pub validate_database : Config → Result ConfigError (Unit {0})
unfolding check_brokers
validate_database c =
    guard (not (is_blank c.database_dsn)) dsn_required
    >> guard (c.mode == mode_control_plane || c.mode == mode_stream_runtime) (invalid_mode c.mode)
    >> check_positive "DB_MAX_CONNS" c.db_max_conns
    >> guard (leb_ℤ (pos 0) c.db_min_conns && leb_ℤ c.db_min_conns c.db_max_conns)
        min_conns_out_of_range
    >> check_positive "DB_CONNECT_TIMEOUT" c.db_connect_timeout
    >> guard (not (is_nil c.kafka_brokers)) no_broker
    >> check_brokers c.kafka_brokers

unfoldable pub validate_runtime : Config → Result ConfigError (Unit {0})
validate_runtime c =
    check_positive "RUNTIME_MAX_GROUPS" c.runtime_max_groups
    >> check_positive "RUNTIME_MAX_WEIGHT" c.runtime_max_weight
    >> check_positive "LEASE_TTL" c.lease_ttl
    >> check_positive "LEASE_RENEW_INTERVAL" c.lease_renew_interval
    >> guard (ltb_ℤ c.lease_renew_interval c.lease_ttl) renew_not_below_ttl
    >> check_positive "RECONCILE_INTERVAL" c.reconcile_interval
    >> check_positive "HEARTBEAT_INTERVAL" c.heartbeat_interval
    >> check_positive "SHUTDOWN_TIMEOUT" c.shutdown_timeout
    >> check_positive "INPUT_STATUS_REPORT_INTERVAL" c.input_status_report_interval
    >> check_positive "INPUT_RECONCILE_INTERVAL" c.input_reconcile_interval

unfoldable pub validate_processing : Config → Result ConfigError (Unit {0})
unfolding check_all_positive batch_sizes flush_intervals
validate_processing c =
    check_all_positive (batch_sizes c)
    >> check_all_positive (flush_intervals c)
    >> guard (c.order_book_delta_partition_interval == hour) partition_not_one_hour
    >> guard (leb_ℤ (pos 0) c.partition_precreate_horizon) negative_horizon

unfoldable pub validate : Config → Result ConfigError (Unit {0})
unfolding validate_database validate_runtime validate_processing
validate c = validate_database c >> validate_runtime c >> validate_processing c
