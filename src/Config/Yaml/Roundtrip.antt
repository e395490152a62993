-- ===== src/Config/Yaml/Roundtrip.antt =====
-- A configuration that is written to a file and loaded again.
use market_data_backend.Prelude.{
  String, true, false, List, [], ◌∷◌, Option, none, some, ok, bind_ok, ◌≡◌, refl, sym, ◌∙◌, ap, inl,
  inr,
}
use market_data_backend.Prelude.Map
use market_data_backend.Prelude.Text.{join_commas, is_empty}
use market_data_backend.Prelude.Int.{ℤ}
use market_data_backend.Config.{
  Config, Lookup, Parsers, default_config, is_blank, set_value, string_env, string_slice_env,
  int32_env, int_env, duration_env, not_an_integer, not_a_duration,
}
use market_data_backend.Config.Load.{
  load_addresses, load_database, load_runtime, load_batches, load_order_book, load_rest, load,
}
use market_data_backend.Config.Validate.{validate}
use market_data_backend.Config.Yaml.{
  value_of, YamlLibrary, decoded, entries, put, put_all, put_brokers, combined, load_file,
  parse_yaml, FileRead, contents,
}
use market_data_backend.Config.Yaml.Written.{yaml_of, IsWritable}
use market_data_backend.Config.Yaml.Settings.{
  IsReadBack, first_set, distinct_keys, put_filled, file_setting, missing_setting, parsed_setting,
  string_setting,
}
use market_data_backend.Config.Yaml.Brokers.{
  is_blank-join_commas, split_commas-join_commas, map-trim_space,
}

module _ (p : Parsers) (itoa format : ℤ → String) (env : Lookup) (c : Config)
    (unset : (k : String) → set_value env k ≡ none) (w : IsWritable p itoa format c) where
  abbrev es : List (String × Option String)
  es = entries itoa (yaml_of format c)

  abbrev lookup : Lookup
  lookup = combined env (put_all es [])

  distinct : distinct_keys es ≡ true
  unfolding entries
  distinct = refl

  text :
      (key v : String) (d : String)
      → first_set key es ≡ put v
      → is_blank v ≡ false
      → string_env lookup key d ≡ v
  text key v d f b =
      string_setting lookup key v d
        (file_setting env es key v unset distinct (f ∙ put_filled v b) b)

  int32 :
      (key : String) (n d : ℤ)
      → first_set key es ≡ some (itoa n)
      → IsReadBack p.parse_int32 itoa n
      → int32_env p lookup key d ≡ ok n
  int32 key n d f r =
      parsed_setting lookup p.parse_int32 itoa (not_an_integer key) key n d r
        (file_setting env es key (itoa n) unset distinct f r.filled)

  int :
      (key : String) (n d : ℤ)
      → first_set key es ≡ some (itoa n)
      → IsReadBack p.atoi itoa n
      → int_env p lookup key d ≡ ok n
  int key n d f r =
      parsed_setting lookup p.atoi itoa (not_an_integer key) key n d r
        (file_setting env es key (itoa n) unset distinct f r.filled)

  duration :
      (key : String) (n d : ℤ)
      → first_set key es ≡ put (format n)
      → IsReadBack p.parse_duration format n
      → duration_env p lookup key d ≡ ok n
  duration key n d f r =
      parsed_setting lookup p.parse_duration format (not_a_duration key) key n d r (
        file_setting env es key (format n) unset distinct (f ∙ put_filled (format n) r.filled)
          r.filled)

  missing_text : (key d : String) → first_set key es ≡ none → string_env lookup key d ≡ d
  unfolding string_env
  missing_text key d f = rw (missing_setting env es key unset distinct f, string_env) refl

  node_id_back : (d : String) → d ≡ "" → string_env lookup "RUNTIME_NODE_ID" d ≡ c.runtime_node_id
  unfolding entries
  node_id_back d e = elim w.runtime_node_id [
    | inl missing ↦ missing_text "RUNTIME_NODE_ID" d (ap put missing) ∙ e ∙ sym missing
    | inr filled ↦ text "RUNTIME_NODE_ID" c.runtime_node_id d refl filled
  ]

  put_brokers_back :
      put_brokers (("default", c.kafka_brokers) ∷ []) ≡ some (join_commas (w.broker ∷ w.brokers))
  unfolding put_brokers Map.lookup
  put_brokers_back = rw w.kafka_brokers (
      put_filled (join_commas (w.broker ∷ w.brokers))
        (is_blank-join_commas w.broker w.brokers w.whole.0.filled))

  brokers_back : (d : List String) → string_slice_env lookup "KAFKA_BROKERS" d ≡ c.kafka_brokers
  unfolding entries string_slice_env
  brokers_back d =
      let joined = join_commas (w.broker ∷ w.brokers) in
      rw
        (
          file_setting env es "KAFKA_BROKERS" joined unset distinct put_brokers_back
              (is_blank-join_commas w.broker w.brokers w.whole.0.filled),
          string_slice_env,
          split_commas-join_commas w.broker w.brokers w.whole,
        )
        (map-trim_space (w.broker ∷ w.brokers) w.whole ∙ sym w.kafka_brokers)

  load_addresses_back : load_addresses lookup default_config ≡ record default_config {
    mode = c.mode;
    http_addr = c.http_addr;
    metrics_addr = c.metrics_addr;
    database_dsn = c.database_dsn;
  }
  unfolding load_addresses entries
  load_addresses_back =
      rw
        (
          text "MODE" c.mode "control-plane" refl w.mode,
          text "HTTP_ADDR" c.http_addr ":8080" refl w.http_addr,
          text "METRICS_ADDR" c.metrics_addr ":9090" refl w.metrics_addr,
          text "DATABASE_DSN" c.database_dsn "" refl w.database_dsn,
          missing_text "STORAGE_DSN" c.database_dsn refl,
        )
        refl

  load_database_back :
      (b : Config)
      → load_database p lookup b
        ≡ ok (record b {
          db_max_conns = c.db_max_conns;
          db_min_conns = c.db_min_conns;
          db_connect_timeout = c.db_connect_timeout;
          kafka_brokers = c.kafka_brokers;
        })
  unfolding load_database entries
  load_database_back b =
      rw
        (
          int32 "DB_MAX_CONNS" c.db_max_conns b.db_max_conns refl w.db_max_conns,
          int32 "DB_MIN_CONNS" c.db_min_conns b.db_min_conns refl w.db_min_conns,
          duration "DB_CONNECT_TIMEOUT" c.db_connect_timeout b.db_connect_timeout refl
              w.db_connect_timeout,
          brokers_back b.kafka_brokers,
        )
        refl

  load_runtime_back :
      (b : Config)
      → b.runtime_node_id ≡ ""
      → load_runtime p lookup b
        ≡ ok (record b {
          runtime_max_groups = c.runtime_max_groups;
          runtime_max_weight = c.runtime_max_weight;
          lease_ttl = c.lease_ttl;
          lease_renew_interval = c.lease_renew_interval;
          reconcile_interval = c.reconcile_interval;
          heartbeat_interval = c.heartbeat_interval;
          shutdown_timeout = c.shutdown_timeout;
          input_status_report_interval = c.input_status_report_interval;
          input_reconcile_interval = c.input_reconcile_interval;
          runtime_node_id = c.runtime_node_id;
        })
  unfolding load_runtime entries
  load_runtime_back b e =
      rw
        (
          int "RUNTIME_MAX_GROUPS" c.runtime_max_groups b.runtime_max_groups refl
              w.runtime_max_groups,
          int "RUNTIME_MAX_WEIGHT" c.runtime_max_weight b.runtime_max_weight refl
              w.runtime_max_weight,
          duration "LEASE_TTL" c.lease_ttl b.lease_ttl refl w.lease_ttl,
          duration "LEASE_RENEW_INTERVAL" c.lease_renew_interval b.lease_renew_interval refl
              w.lease_renew_interval,
          duration "RECONCILE_INTERVAL" c.reconcile_interval b.reconcile_interval refl
              w.reconcile_interval,
          duration "HEARTBEAT_INTERVAL" c.heartbeat_interval b.heartbeat_interval refl
              w.heartbeat_interval,
          duration "SHUTDOWN_TIMEOUT" c.shutdown_timeout b.shutdown_timeout refl w.shutdown_timeout,
          duration "INPUT_STATUS_REPORT_INTERVAL" c.input_status_report_interval
              b.input_status_report_interval refl w.input_status_report_interval,
          duration "INPUT_RECONCILE_INTERVAL" c.input_reconcile_interval b.input_reconcile_interval
              refl w.input_reconcile_interval,
          node_id_back b.runtime_node_id e,
        )
        refl

  load_batches_back :
      (b : Config)
      → load_batches p lookup b
        ≡ ok (record b {
          trade_batch_size = c.trade_batch_size;
          trade_batch_flush_interval = c.trade_batch_flush_interval;
          kline_batch_size = c.kline_batch_size;
          kline_batch_flush_interval = c.kline_batch_flush_interval;
          order_book_delta_batch_size = c.order_book_delta_batch_size;
          order_book_delta_flush_interval = c.order_book_delta_flush_interval;
        })
  unfolding load_batches entries
  load_batches_back b =
      rw
        (
          int "TRADE_BATCH_SIZE" c.trade_batch_size b.trade_batch_size refl w.trade_batch_size,
          duration "TRADE_BATCH_FLUSH_INTERVAL" c.trade_batch_flush_interval
              b.trade_batch_flush_interval refl w.trade_batch_flush_interval,
          int "KLINE_BATCH_SIZE" c.kline_batch_size b.kline_batch_size refl w.kline_batch_size,
          duration "KLINE_BATCH_FLUSH_INTERVAL" c.kline_batch_flush_interval
              b.kline_batch_flush_interval refl w.kline_batch_flush_interval,
          int "ORDERBOOK_DELTA_BATCH_SIZE" c.order_book_delta_batch_size
              b.order_book_delta_batch_size refl w.order_book_delta_batch_size,
          duration "ORDERBOOK_DELTA_FLUSH_INTERVAL" c.order_book_delta_flush_interval
              b.order_book_delta_flush_interval refl w.order_book_delta_flush_interval,
        )
        refl

  load_order_book_back :
      (b : Config)
      → load_order_book p lookup b
        ≡ ok (record b {
          order_book_snapshot_interval = c.order_book_snapshot_interval;
          order_book_delta_retention = c.order_book_delta_retention;
          order_book_delta_partition_interval = c.order_book_delta_partition_interval;
          partition_maintenance_interval = c.partition_maintenance_interval;
          partition_precreate_horizon = c.partition_precreate_horizon;
          log_level = c.log_level;
          log_format = c.log_format;
        })
  unfolding load_order_book entries
  load_order_book_back b =
      rw
        (
          duration "ORDERBOOK_SNAPSHOT_INTERVAL" c.order_book_snapshot_interval
              b.order_book_snapshot_interval refl w.order_book_snapshot_interval,
          duration "ORDERBOOK_DELTA_RETENTION" c.order_book_delta_retention
              b.order_book_delta_retention refl w.order_book_delta_retention,
          duration "ORDERBOOK_DELTA_PARTITION_INTERVAL" c.order_book_delta_partition_interval
              b.order_book_delta_partition_interval refl w.order_book_delta_partition_interval,
          duration "PARTITION_MAINTENANCE_INTERVAL" c.partition_maintenance_interval
              b.partition_maintenance_interval refl w.partition_maintenance_interval,
          duration "PARTITION_PRECREATE_HORIZON" c.partition_precreate_horizon
              b.partition_precreate_horizon refl w.partition_precreate_horizon,
          text "LOG_LEVEL" c.log_level b.log_level refl w.log_level,
          text "LOG_FORMAT" c.log_format b.log_format refl w.log_format,
        )
        refl

  load_rest_back : load_rest p lookup (load_addresses lookup default_config) ≡ ok c
  unfolding load_rest
  load_rest_back =
      ap (load_rest p lookup) load_addresses_back
      ∙ bind_ok _ _ _ (load_database_back _)
      ∙ bind_ok _ _ _ (load_runtime_back _ refl)
      ∙ bind_ok _ _ _ (load_batches_back _)
      ∙ load_order_book_back _

  load_back : validate c ≡ ok tt → load p lookup ≡ ok c
  unfolding load
  load_back v = bind_ok _ _ _ load_rest_back ∙ bind_ok _ _ _ v

-- A valid configuration that is written to a YAML file, every setting of it, is loaded again as it
-- was, where the environment sets nothing, the library decodes the file as what was written, every
-- number is read back as it is printed, the texts are not blank (the id of the node may be empty)
-- and the brokers hold no commas and no spaces around them.
pub load_file-yaml_of :
    (p : Parsers) (y : YamlLibrary) (format : ℤ → String) (env : Lookup) (c : Config)
    (read_file : String → FileRead) (config_path content : String)
    → ((k : String) → set_value env k ≡ none)
    → IsWritable p y.itoa format c
    → is_empty config_path ≡ false
    → read_file config_path ≡ contents content
    → ((value_of : String → String)
        → y.decode (y.expand value_of content) ≡ decoded (yaml_of format c))
    → validate c ≡ ok tt
    → load_file p y read_file config_path env ≡ ok c
unfolding load_file parse_yaml
load_file-yaml_of p y format env c read_file config_path content unset w named reads decodes valid =
    rw (named, load_file, reads, parse_yaml, decodes (value_of env))
      (load_back p y.itoa format env c unset w valid)
