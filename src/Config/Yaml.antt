-- ===== src/Config/Yaml.antt =====
-- internal/config/yaml.go: the settings of a YAML file, and the file below the environment.
pub mod Settings
pub mod Written
pub mod Brokers
pub mod Roundtrip
use market_data_backend.Prelude.{
  String, Bool, List, [], ◌∷◌, Option, none, some, Result, ok, err, ◌>>=◌, ◌==◌, String_eq,
  if◌then◌else◌,
}
use market_data_backend.Prelude.Map
use market_data_backend.Prelude.Text.{join_commas, is_empty}
use market_data_backend.Prelude.Int.{ℤ}
use market_data_backend.Config.{
  Config, ConfigError, Lookup, Parsers, set_value, unreadable_file, invalid_yaml,
}
use market_data_backend.Config.Load.{load}

-- The schema of the file, its sections in one record; a text that the file does not have is empty.
pub record YamlConfig : Type 0 where
  pub mode : String
  pub http_addr : String
  pub metrics_addr : String
  pub dsn : String
  pub max_conns : Option ℤ
  pub min_conns : Option ℤ
  pub connect_timeout : String
  pub kafka_clusters : List (String × List String)
  pub node_id : String
  pub max_groups : Option ℤ
  pub max_weight : Option ℤ
  pub lease_ttl : String
  pub lease_renew_interval : String
  pub reconcile_interval : String
  pub heartbeat_interval : String
  pub shutdown_timeout : String
  pub status_report_interval : String
  pub input_reconcile : String
  pub trade_size : Option ℤ
  pub trade_flush_interval : String
  pub kline_size : Option ℤ
  pub kline_flush_interval : String
  pub order_book_delta_size : Option ℤ
  pub order_book_delta_flush_interval : String
  pub snapshot_interval : String
  pub delta_retention : String
  pub delta_partition_interval : String
  pub partition_maintenance_interval : String
  pub partition_precreate_horizon : String
  pub log_level : String
  pub log_format : String

-- `strconv.Itoa`, `os.Expand` with the values for the names, and the decoder of `yaml.v3` with
-- unknown fields refused.
pub data Decoded : Type 0 where
  end_of_file : Decoded
  malformed : Decoded
  decoded : YamlConfig → Decoded

pub record YamlLibrary : Type 0 where
  pub itoa : ℤ → String
  pub expand : (String → String) → String → String
  pub decode : String → Decoded

-- `put` leaves an empty text out, `putInt` a number that is not there.
abbrev pub put : String → Option String
put value = if is_empty value then none else some value

abbrev pub put_int : (ℤ → String) → Option ℤ → Option String
put_int itoa none = none
put_int itoa (some n) = some (itoa n)

unfoldable pub put_brokers : List (String × List String) → Option String
put_brokers clusters = elim (Map.lookup "default" clusters) [
  | none ↦ none
  | some [] ↦ none
  | some (broker ∷ brokers) ↦ put (join_commas (broker ∷ brokers))
]

-- The calls of `put` and `putInt`, in order.
unfoldable pub entries : (ℤ → String) → YamlConfig → List (String × Option String)
unfolding put_brokers
entries itoa yc =
    ("MODE", put yc.mode)
    ∷ ("HTTP_ADDR", put yc.http_addr)
    ∷ ("METRICS_ADDR", put yc.metrics_addr)
    ∷ ("DATABASE_DSN", put yc.dsn)
    ∷ ("DB_MAX_CONNS", put_int itoa yc.max_conns)
    ∷ ("DB_MIN_CONNS", put_int itoa yc.min_conns)
    ∷ ("DB_CONNECT_TIMEOUT", put yc.connect_timeout)
    ∷ ("KAFKA_BROKERS", put_brokers yc.kafka_clusters)
    ∷ ("RUNTIME_NODE_ID", put yc.node_id)
    ∷ ("RUNTIME_MAX_GROUPS", put_int itoa yc.max_groups)
    ∷ ("RUNTIME_MAX_WEIGHT", put_int itoa yc.max_weight)
    ∷ ("LEASE_TTL", put yc.lease_ttl)
    ∷ ("LEASE_RENEW_INTERVAL", put yc.lease_renew_interval)
    ∷ ("RECONCILE_INTERVAL", put yc.reconcile_interval)
    ∷ ("HEARTBEAT_INTERVAL", put yc.heartbeat_interval)
    ∷ ("SHUTDOWN_TIMEOUT", put yc.shutdown_timeout)
    ∷ ("INPUT_STATUS_REPORT_INTERVAL", put yc.status_report_interval)
    ∷ ("INPUT_RECONCILE_INTERVAL", put yc.input_reconcile)
    ∷ ("TRADE_BATCH_SIZE", put_int itoa yc.trade_size)
    ∷ ("TRADE_BATCH_FLUSH_INTERVAL", put yc.trade_flush_interval)
    ∷ ("KLINE_BATCH_SIZE", put_int itoa yc.kline_size)
    ∷ ("KLINE_BATCH_FLUSH_INTERVAL", put yc.kline_flush_interval)
    ∷ ("ORDERBOOK_DELTA_BATCH_SIZE", put_int itoa yc.order_book_delta_size)
    ∷ ("ORDERBOOK_DELTA_FLUSH_INTERVAL", put yc.order_book_delta_flush_interval)
    ∷ ("ORDERBOOK_SNAPSHOT_INTERVAL", put yc.snapshot_interval)
    ∷ ("ORDERBOOK_DELTA_RETENTION", put yc.delta_retention)
    ∷ ("ORDERBOOK_DELTA_PARTITION_INTERVAL", put yc.delta_partition_interval)
    ∷ ("PARTITION_MAINTENANCE_INTERVAL", put yc.partition_maintenance_interval)
    ∷ ("PARTITION_PRECREATE_HORIZON", put yc.partition_precreate_horizon)
    ∷ ("LOG_LEVEL", put yc.log_level)
    ∷ ("LOG_FORMAT", put yc.log_format)
    ∷ []

abbrev pub put_entry : String → Option String → List (String × String) → List (String × String)
put_entry key none out = out
put_entry key (some value) out = Map.insert key value out

unfoldable pub put_all :
    List (String × Option String) → List (String × String) → List (String × String)
put_all [] out = out
put_all ((key, value) ∷ more) out = put_all more (put_entry key value out)

-- The text that stands for `${name}`.
abbrev pub value_of : Lookup → String → String
value_of lookup name = elim (lookup name) [ none ↦ "" | some v ↦ v ]

unfoldable pub parse_yaml :
    YamlLibrary → String → Lookup → Result ConfigError (List (String × String))
unfolding entries put_all
parse_yaml y content lookup = elim (y.decode (y.expand (value_of lookup) content)) [
  | end_of_file ↦ ok []
  | malformed ↦ err invalid_yaml
  | decoded yc ↦ ok (put_all (entries y.itoa yc) [])
]

-- What `os.ReadFile` says.
pub data FileRead : Type 0 where
  absent : FileRead
  unreadable : FileRead
  contents : String → FileRead

-- The environment over the values of the file.
unfoldable pub combined : Lookup → List (String × String) → Lookup
unfolding set_value
combined lookup file_values key = elim (set_value lookup key) [
  | some v ↦ some v
  | none ↦ Map.lookup key file_values
]

unfoldable pub load_file :
    Parsers → YamlLibrary → (String → FileRead) → String → Lookup → Result ConfigError Config
unfolding parse_yaml combined
load_file p y read_file config_path lookup =
    if is_empty config_path then load p lookup else elim (read_file config_path) [
      | absent ↦ load p lookup
      | unreadable ↦ err unreadable_file
      | contents content ↦
          parse_yaml y content lookup >>= λ file_values. load p (combined lookup file_values)
    ]
