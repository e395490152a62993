-- ===== src/Config/Load.antt =====
-- internal/config/config.go: the settings are read from the environment, over the defaults.
use market_data_backend.Prelude.{Result, ok, ◌>>=◌, ◌>>◌}
use market_data_backend.Config.{
  Config, ConfigError, Lookup, Parsers, default_config, string_env, string_slice_env, int32_env,
  int_env, duration_env,
}
use market_data_backend.Config.Validate.{validate}

-- The texts at the head of the function; `STORAGE_DSN` is read over `DATABASE_DSN`.
unfoldable pub load_addresses : Lookup → Config → Config
load_addresses lookup c = record c {
  mode = string_env lookup "MODE" c.mode;
  http_addr = string_env lookup "HTTP_ADDR" c.http_addr;
  metrics_addr = string_env lookup "METRICS_ADDR" c.metrics_addr;
  database_dsn = string_env lookup "STORAGE_DSN" (string_env lookup "DATABASE_DSN" c.database_dsn);
}

unfoldable pub load_database : Parsers → Lookup → Config → Result ConfigError Config
load_database p lookup c = int32_env p lookup "DB_MAX_CONNS" c.db_max_conns >>= λ max_conns.
    int32_env p lookup "DB_MIN_CONNS" c.db_min_conns >>= λ min_conns.
    duration_env p lookup "DB_CONNECT_TIMEOUT" c.db_connect_timeout >>= λ connect_timeout.
    ok (record c {
      db_max_conns = max_conns;
      db_min_conns = min_conns;
      db_connect_timeout = connect_timeout;
      kafka_brokers = string_slice_env lookup "KAFKA_BROKERS" c.kafka_brokers;
    })

unfoldable pub load_runtime : Parsers → Lookup → Config → Result ConfigError Config
load_runtime p lookup c =
    int_env p lookup "RUNTIME_MAX_GROUPS" c.runtime_max_groups >>= λ max_groups.
    int_env p lookup "RUNTIME_MAX_WEIGHT" c.runtime_max_weight >>= λ max_weight.
    duration_env p lookup "LEASE_TTL" c.lease_ttl >>= λ lease_ttl.
    duration_env p lookup "LEASE_RENEW_INTERVAL" c.lease_renew_interval >>= λ lease_renew.
    duration_env p lookup "RECONCILE_INTERVAL" c.reconcile_interval >>= λ reconcile.
    duration_env p lookup "HEARTBEAT_INTERVAL" c.heartbeat_interval >>= λ heartbeat.
    duration_env p lookup "SHUTDOWN_TIMEOUT" c.shutdown_timeout >>= λ shutdown.
    duration_env p lookup "INPUT_STATUS_REPORT_INTERVAL" c.input_status_report_interval
    >>= λ report.
        duration_env p lookup "INPUT_RECONCILE_INTERVAL" c.input_reconcile_interval
        >>= λ input_reconcile. ok (record c {
          runtime_node_id = string_env lookup "RUNTIME_NODE_ID" c.runtime_node_id;
          runtime_max_groups = max_groups;
          runtime_max_weight = max_weight;
          lease_ttl = lease_ttl;
          lease_renew_interval = lease_renew;
          reconcile_interval = reconcile;
          heartbeat_interval = heartbeat;
          shutdown_timeout = shutdown;
          input_status_report_interval = report;
          input_reconcile_interval = input_reconcile;
        })

unfoldable pub load_batches : Parsers → Lookup → Config → Result ConfigError Config
load_batches p lookup c = int_env p lookup "TRADE_BATCH_SIZE" c.trade_batch_size >>= λ trade_size.
    duration_env p lookup "TRADE_BATCH_FLUSH_INTERVAL" c.trade_batch_flush_interval
    >>= λ trade_flush. int_env p lookup "KLINE_BATCH_SIZE" c.kline_batch_size >>= λ kline_size.
        duration_env p lookup "KLINE_BATCH_FLUSH_INTERVAL" c.kline_batch_flush_interval
        >>= λ kline_flush.
            int_env p lookup "ORDERBOOK_DELTA_BATCH_SIZE" c.order_book_delta_batch_size
            >>= λ delta_size.
                duration_env p lookup "ORDERBOOK_DELTA_FLUSH_INTERVAL"
                  c.order_book_delta_flush_interval
                >>= λ delta_flush. ok (record c {
                  trade_batch_size = trade_size;
                  trade_batch_flush_interval = trade_flush;
                  kline_batch_size = kline_size;
                  kline_batch_flush_interval = kline_flush;
                  order_book_delta_batch_size = delta_size;
                  order_book_delta_flush_interval = delta_flush;
                })

unfoldable pub load_order_book : Parsers → Lookup → Config → Result ConfigError Config
load_order_book p lookup c =
    duration_env p lookup "ORDERBOOK_SNAPSHOT_INTERVAL" c.order_book_snapshot_interval
    >>= λ snapshot.
        duration_env p lookup "ORDERBOOK_DELTA_RETENTION" c.order_book_delta_retention
        >>= λ retention.
            duration_env p lookup "ORDERBOOK_DELTA_PARTITION_INTERVAL"
              c.order_book_delta_partition_interval
            >>= λ partition.
                duration_env p lookup "PARTITION_MAINTENANCE_INTERVAL"
                  c.partition_maintenance_interval
                >>= λ maintenance.
                    duration_env p lookup "PARTITION_PRECREATE_HORIZON"
                      c.partition_precreate_horizon
                    >>= λ horizon. ok (record c {
                      order_book_snapshot_interval = snapshot;
                      order_book_delta_retention = retention;
                      order_book_delta_partition_interval = partition;
                      partition_maintenance_interval = maintenance;
                      partition_precreate_horizon = horizon;
                      log_level = string_env lookup "LOG_LEVEL" c.log_level;
                      log_format = string_env lookup "LOG_FORMAT" c.log_format;
                    })

-- What follows the addresses.
unfoldable pub load_rest : Parsers → Lookup → Config → Result ConfigError Config
unfolding load_database load_runtime load_batches load_order_book
load_rest p lookup c = load_database p lookup c >>= λ c1. load_runtime p lookup c1 >>= λ c2.
    load_batches p lookup c2 >>= λ c3. load_order_book p lookup c3

unfoldable pub load : Parsers → Lookup → Result ConfigError Config
unfolding load_addresses load_rest
load p lookup =
    load_rest p lookup (load_addresses lookup default_config) >>= λ c. validate c >> ok c
