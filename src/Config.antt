-- ===== src/Config.antt =====
-- internal/config/config.go: the settings of the processes and where they are read from. Durations
-- are counted in nanoseconds.
pub mod Validate
pub mod Load
pub mod Yaml
pub mod Valid
pub mod Used
use market_data_backend.Prelude.{
  ℕ, String, Bool, true, false, not, List, [], ◌∷◌, map, Option, none, some, Result, ok, err, ◌>>=◌,
  if◌then◌else◌,
}
use market_data_backend.Prelude.Text.{trim_space, is_empty, split_commas}
use market_data_backend.Prelude.Int.{ℤ, pos}

pub record Config : Type 0 where
  pub mode : String
  pub http_addr : String
  pub metrics_addr : String
  pub database_dsn : String
  pub db_max_conns : ℤ
  pub db_min_conns : ℤ
  pub db_connect_timeout : ℤ
  pub kafka_brokers : List String
  pub runtime_node_id : String
  pub runtime_max_groups : ℤ
  pub runtime_max_weight : ℤ
  pub lease_ttl : ℤ
  pub lease_renew_interval : ℤ
  pub reconcile_interval : ℤ
  pub heartbeat_interval : ℤ
  pub shutdown_timeout : ℤ
  pub input_status_report_interval : ℤ
  pub input_reconcile_interval : ℤ
  pub trade_batch_size : ℤ
  pub trade_batch_flush_interval : ℤ
  pub kline_batch_size : ℤ
  pub kline_batch_flush_interval : ℤ
  pub order_book_delta_batch_size : ℤ
  pub order_book_delta_flush_interval : ℤ
  pub order_book_snapshot_interval : ℤ
  pub order_book_delta_retention : ℤ
  pub order_book_delta_partition_interval : ℤ
  pub partition_maintenance_interval : ℤ
  pub partition_precreate_horizon : ℤ
  pub log_level : String
  pub log_format : String

-- `lookup(key)`: the value and whether it is there.
abbrev pub Lookup : Type 0
Lookup = String → Option String

abbrev pub mode_control_plane : String
mode_control_plane = "control-plane"

abbrev pub mode_stream_runtime : String
mode_stream_runtime = "stream-runtime"

abbrev pub hour : ℤ
hour = pos 3_600_000_000_000

abbrev pub default_config : Config
default_config = record {
  mode = mode_control_plane;
  http_addr = ":8080";
  metrics_addr = ":9090";
  database_dsn = "";
  db_max_conns = pos 10;
  db_min_conns = pos 0;
  db_connect_timeout = pos 5_000_000_000;
  kafka_brokers = "127.0.0.1:19090" ∷ [];
  runtime_node_id = "";
  runtime_max_groups = pos 10;
  runtime_max_weight = pos 100;
  lease_ttl = pos 30_000_000_000;
  lease_renew_interval = pos 10_000_000_000;
  reconcile_interval = pos 5_000_000_000;
  heartbeat_interval = pos 10_000_000_000;
  shutdown_timeout = pos 20_000_000_000;
  input_status_report_interval = pos 1_000_000_000;
  input_reconcile_interval = pos 2_000_000_000;
  trade_batch_size = pos 500;
  trade_batch_flush_interval = pos 100_000_000;
  kline_batch_size = pos 100;
  kline_batch_flush_interval = pos 500_000_000;
  order_book_delta_batch_size = pos 2000;
  order_book_delta_flush_interval = pos 100_000_000;
  order_book_snapshot_interval = pos 60_000_000_000;
  order_book_delta_retention = pos 259_200_000_000_000;
  order_book_delta_partition_interval = hour;
  partition_maintenance_interval = hour;
  partition_precreate_horizon = pos 10_800_000_000_000;
  log_level = "info";
  log_format = "json";
}

-- The errors of the package; a text names the setting, or is the mode that is refused.
pub data ConfigError : Type 0 where
  dsn_required : ConfigError
  invalid_mode : String → ConfigError
  not_positive : String → ConfigError
  min_conns_out_of_range : ConfigError
  no_broker : ConfigError
  empty_broker : ConfigError
  renew_not_below_ttl : ConfigError
  partition_not_one_hour : ConfigError
  negative_horizon : ConfigError
  not_an_integer : String → ConfigError
  not_a_duration : String → ConfigError
  unreadable_file : ConfigError
  invalid_yaml : ConfigError

-- `strconv.ParseInt(_, 10, 32)`, `strconv.Atoi` and `time.ParseDuration`; `none` is an error.
pub record Parsers : Type 0 where
  pub parse_int32 : String → Option ℤ
  pub atoi : String → Option ℤ
  pub parse_duration : String → Option ℤ

-- `strings.TrimSpace(v) == ""`.
abbrev pub is_blank : String → Bool
is_blank v = is_empty (trim_space v)

-- The value of a setting that is there and not blank: what each of the readers below tests first.
unfoldable pub set_value : Lookup → String → Option String
set_value lookup key = elim (lookup key) [
  | none ↦ none
  | some v ↦ if is_blank v then none else some v
]

unfoldable pub string_env : Lookup → String → String → String
unfolding set_value
string_env lookup key default_value = elim (set_value lookup key) [
  | none ↦ default_value
  | some v ↦ v
]

unfoldable pub string_slice_env : Lookup → String → List String → List String
unfolding set_value
string_slice_env lookup key default_value = elim (set_value lookup key) [
  | none ↦ default_value
  | some v ↦ map trim_space (split_commas v)
]

-- A value that is parsed once it is trimmed.
unfoldable pub parsed_env :
    (String → Option ℤ) → ConfigError → Lookup → String → ℤ → Result ConfigError ℤ
unfolding set_value
parsed_env parse error lookup key default_value = elim (set_value lookup key) [
  | none ↦ ok default_value
  | some v ↦ elim (parse (trim_space v)) [ none ↦ err error | some n ↦ ok n ]
]

abbrev pub int32_env : Parsers → Lookup → String → ℤ → Result ConfigError ℤ
int32_env p lookup key = parsed_env p.parse_int32 (not_an_integer key) lookup key

abbrev pub int_env : Parsers → Lookup → String → ℤ → Result ConfigError ℤ
int_env p lookup key = parsed_env p.atoi (not_an_integer key) lookup key

abbrev pub duration_env : Parsers → Lookup → String → ℤ → Result ConfigError ℤ
duration_env p lookup key = parsed_env p.parse_duration (not_a_duration key) lookup key
