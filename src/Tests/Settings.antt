-- ===== src/Tests/Settings.antt =====
-- Settings of an environment with one variable, and of a file.
use market_data_backend.Prelude.{
  String, true, false, [], ◌∷◌, Option, none, some, ok, ◌==◌, String_eq, if◌then◌else◌, ◌≡◌, refl,
  inl, nat_eq, ◌↔◌,
}
use market_data_backend.Prelude.Text
use market_data_backend.Prelude.Int.{ℤ, pos, negsuc}
use market_data_backend.Node.{node_with_defaults}
use market_data_backend.Config
use market_data_backend.Config.{Config, Lookup, Parsers, default_config, hour}
use market_data_backend.Config.Validate
use market_data_backend.Config.Validate.{validate}
use market_data_backend.Config.Load
use market_data_backend.Config.Load.{load}
use market_data_backend.Config.Valid.{IsValid, validate_iff, load-IsValid}
use market_data_backend.Config.Used.{runtime_node_config, node_with_defaults-load, load-storage_dsn}
use market_data_backend.Config.Yaml.{YamlLibrary, decoded, contents, load_file}
use market_data_backend.Config.Yaml.Written.{yaml_of, IsWritable}
use market_data_backend.Config.Yaml.Roundtrip.{load_file-yaml_of}

-- The numbers of the tests are one, two and an hour.
abbrev print : ℤ → String
print n = elim n [
  | pos k ↦ elim (nat_eq k 1) [
    | true ↦ "1"
    | false ↦ elim (nat_eq k 2) [ true ↦ "2" | false ↦ "1h" ]
  ]
  | negsuc k ↦ "-1"
]

abbrev parse : String → Option ℤ
parse s =
    if s == "1"
    then some (pos 1)
    else if s == "2"
    then some (pos 2)
    else if s == "1h"
    then some hour
    else none

abbrev parsers : Parsers
parsers = record { parse_int32 = parse; atoi = parse; parse_duration = parse }

-- Only the database is named, and only by the later of its two variables.
abbrev one_variable : Lookup
one_variable key =
    if key == "STORAGE_DSN" then some "db" else if key == "DATABASE_DSN" then some "old" else none

abbrev with_database : Config
with_database = record default_config { database_dsn = "db" }

loads : load parsers one_variable ≡ ok with_database
unfolding Load.load Load.load_rest Load.load_addresses Load.load_database Load.load_runtime
    Load.load_batches Load.load_order_book Validate.validate Validate.validate_database
    Validate.validate_runtime Validate.validate_processing Validate.check_all_positive
    Validate.check_brokers Validate.batch_sizes Validate.flush_intervals Config.string_env
    Config.string_slice_env Config.parsed_env Config.set_value Text.trim_space Text.trim_left
    Text.trim_right Text.is_space Text.split_commas
loads = refl

validate_iff_example : (validate with_database ≡ ok tt) ↔ IsValid with_database
validate_iff_example = validate_iff with_database

load-IsValid_example : IsValid with_database
load-IsValid_example = load-IsValid parsers one_variable with_database loads

node_with_defaults-load_example :
    node_with_defaults (runtime_node_config "n" "h" "p" with_database)
    ≡ runtime_node_config "n" "h" "p" with_database
node_with_defaults-load_example =
    node_with_defaults-load parsers one_variable with_database "n" "h" "p" loads

load-storage_dsn_example : with_database.database_dsn ≡ "db"
unfolding Config.set_value Text.trim_space Text.trim_left Text.trim_right Text.is_space
load-storage_dsn_example = load-storage_dsn parsers one_variable "db" with_database refl loads

abbrev nothing_set : Lookup
nothing_set key = none

abbrev small : Config
small = record {
  mode = "stream-runtime";
  http_addr = ":1";
  metrics_addr = ":2";
  database_dsn = "db";
  db_max_conns = pos 2;
  db_min_conns = pos 1;
  db_connect_timeout = pos 1;
  kafka_brokers = "a:1" ∷ "b:2" ∷ [];
  runtime_node_id = "";
  runtime_max_groups = pos 1;
  runtime_max_weight = pos 2;
  lease_ttl = pos 2;
  lease_renew_interval = pos 1;
  reconcile_interval = pos 1;
  heartbeat_interval = pos 1;
  shutdown_timeout = pos 2;
  input_status_report_interval = pos 1;
  input_reconcile_interval = pos 2;
  trade_batch_size = pos 1;
  trade_batch_flush_interval = pos 2;
  kline_batch_size = pos 1;
  kline_batch_flush_interval = pos 1;
  order_book_delta_batch_size = pos 2;
  order_book_delta_flush_interval = pos 1;
  order_book_snapshot_interval = pos 1;
  order_book_delta_retention = pos 2;
  order_book_delta_partition_interval = hour;
  partition_maintenance_interval = pos 1;
  partition_precreate_horizon = hour;
  log_level = "info";
  log_format = "json";
}

abbrev library : YamlLibrary
library = record {
  itoa = print;
  expand = λ values content. content;
  decode = λ content. decoded (yaml_of print small);
}

writable : IsWritable parsers print print small
unfolding Text.trim_space Text.trim_left Text.trim_right Text.is_space
writable = record {
  mode = refl;
  http_addr = refl;
  metrics_addr = refl;
  database_dsn = refl;
  log_level = refl;
  log_format = refl;
  db_max_conns = record { parsed = refl; filled = refl };
  db_min_conns = record { parsed = refl; filled = refl };
  runtime_max_groups = record { parsed = refl; filled = refl };
  runtime_max_weight = record { parsed = refl; filled = refl };
  trade_batch_size = record { parsed = refl; filled = refl };
  kline_batch_size = record { parsed = refl; filled = refl };
  order_book_delta_batch_size = record { parsed = refl; filled = refl };
  db_connect_timeout = record { parsed = refl; filled = refl };
  lease_ttl = record { parsed = refl; filled = refl };
  lease_renew_interval = record { parsed = refl; filled = refl };
  reconcile_interval = record { parsed = refl; filled = refl };
  heartbeat_interval = record { parsed = refl; filled = refl };
  shutdown_timeout = record { parsed = refl; filled = refl };
  input_status_report_interval = record { parsed = refl; filled = refl };
  input_reconcile_interval = record { parsed = refl; filled = refl };
  trade_batch_flush_interval = record { parsed = refl; filled = refl };
  kline_batch_flush_interval = record { parsed = refl; filled = refl };
  order_book_delta_flush_interval = record { parsed = refl; filled = refl };
  order_book_snapshot_interval = record { parsed = refl; filled = refl };
  order_book_delta_retention = record { parsed = refl; filled = refl };
  order_book_delta_partition_interval = record { parsed = refl; filled = refl };
  partition_maintenance_interval = record { parsed = refl; filled = refl };
  partition_precreate_horizon = record { parsed = refl; filled = refl };
  runtime_node_id = inl refl;
  broker = "a:1";
  brokers = "b:2" ∷ [];
  kafka_brokers = refl;
  whole = (
    record { whole = refl; trimmed = refl; filled = refl },
    (record { whole = refl; trimmed = refl; filled = refl }, tt),
  );
}

load_file-yaml_of_example :
    load_file parsers library (λ path. contents "written") "config.yaml" nothing_set ≡ ok small
unfolding Load.load Load.load_rest Load.load_addresses Load.load_database Load.load_runtime
    Load.load_batches Load.load_order_book Validate.validate Validate.validate_database
    Validate.validate_runtime Validate.validate_processing Validate.check_all_positive
    Validate.check_brokers Validate.batch_sizes Validate.flush_intervals Config.string_env
    Config.string_slice_env Config.parsed_env Config.set_value Text.trim_space Text.trim_left
    Text.trim_right Text.is_space Text.split_commas
load_file-yaml_of_example =
    load_file-yaml_of parsers library print nothing_set small (λ path. contents "written")
      "config.yaml" "written" (λ k. refl) writable refl refl (λ values. refl) refl
