-- ===== src/Config/Valid.antt =====
-- The settings that pass the checks.
use market_data_backend.Prelude.{
  String, false, List, [], ◌∷◌, Result, ok, err, ◌>>◌, bind_cases, String_eq, ◌≡◌, refl, ap, ◌∙◌,
  subst, ◌↔◌, ◌⊎◌, All, arith, eq_test_iff,
}
use market_data_backend.Prelude.Int.{pos, ◌≤ℤ◌, ◌<ℤ◌, ℤ_eq, int_eq_iff}
use market_data_backend.Config.{
  Config, ConfigError, Lookup, Parsers, default_config, is_blank, mode_control_plane,
  mode_stream_runtime, hour,
}
use market_data_backend.Config.Validate.{
  check_all_positive, check_brokers, is_nil, batch_sizes, flush_intervals, validate_database,
  validate_runtime, validate_processing, validate,
}
use market_data_backend.Config.Load.{load, load_rest, load_addresses}

-- A database and brokers that can be named.
pub record HasDatabase (c : Config) : Type 0 where
  pub dsn : is_blank c.database_dsn ≡ false
  pub mode : c.mode ≡ mode_control_plane ⊎ c.mode ≡ mode_stream_runtime
  pub max_conns : pos 0 <ℤ c.db_max_conns
  pub min_conns : (pos 0 ≤ℤ c.db_min_conns) × (c.db_min_conns ≤ℤ c.db_max_conns)
  pub connect_timeout : pos 0 <ℤ c.db_connect_timeout
  pub some_broker : is_nil c.kafka_brokers ≡ false
  pub brokers : All (λ b. is_blank b ≡ false) c.kafka_brokers

-- Bounds and intervals for a node; a lease is renewed before it runs out.
pub record HasRuntime (c : Config) : Type 0 where
  pub max_groups : pos 0 <ℤ c.runtime_max_groups
  pub max_weight : pos 0 <ℤ c.runtime_max_weight
  pub lease_ttl : pos 0 <ℤ c.lease_ttl
  pub renew : pos 0 <ℤ c.lease_renew_interval
  pub in_time : c.lease_renew_interval <ℤ c.lease_ttl
  pub reconcile : pos 0 <ℤ c.reconcile_interval
  pub heartbeat : pos 0 <ℤ c.heartbeat_interval
  pub shutdown : pos 0 <ℤ c.shutdown_timeout
  pub report : pos 0 <ℤ c.input_status_report_interval
  pub input_reconcile : pos 0 <ℤ c.input_reconcile_interval

-- Batches and intervals for the inputs, and partitions of one hour.
pub record HasProcessing (c : Config) : Type 0 where
  pub trade_size : pos 0 <ℤ c.trade_batch_size
  pub kline_size : pos 0 <ℤ c.kline_batch_size
  pub delta_size : pos 0 <ℤ c.order_book_delta_batch_size
  pub trade_flush : pos 0 <ℤ c.trade_batch_flush_interval
  pub kline_flush : pos 0 <ℤ c.kline_batch_flush_interval
  pub delta_flush : pos 0 <ℤ c.order_book_delta_flush_interval
  pub snapshot : pos 0 <ℤ c.order_book_snapshot_interval
  pub retention : pos 0 <ℤ c.order_book_delta_retention
  pub maintenance : pos 0 <ℤ c.partition_maintenance_interval
  pub one_hour : c.order_book_delta_partition_interval ≡ hour
  pub horizon : pos 0 ≤ℤ c.partition_precreate_horizon

pub record IsValid (c : Config) : Type 0 where
  pub database : HasDatabase c
  pub runtime : HasRuntime c
  pub processing : HasProcessing c

check_brokers_iff :
    (bs : List String) → (check_brokers bs ≡ ok tt) ↔ All (λ b. is_blank b ≡ false) bs
unfolding check_brokers
check_brokers_iff [] = ground arith
check_brokers_iff (b ∷ bs) = ground (arith, check_brokers_iff bs)

validate_database_iff : (c : Config) → (validate_database c ≡ ok tt) ↔ HasDatabase c
unfolding validate_database
validate_database_iff c = ground (
  arith,
  check_brokers_iff c.kafka_brokers,
  eq_test_iff c.mode mode_control_plane,
  eq_test_iff c.mode mode_stream_runtime,
)

validate_runtime_iff : (c : Config) → (validate_runtime c ≡ ok tt) ↔ HasRuntime c
unfolding validate_runtime
validate_runtime_iff c = ground arith

validate_processing_iff : (c : Config) → (validate_processing c ≡ ok tt) ↔ HasProcessing c
unfolding validate_processing check_all_positive batch_sizes flush_intervals
validate_processing_iff c = ground (arith, int_eq_iff c.order_book_delta_partition_interval hour)

then_iff :
    (m next : Result ConfigError (Unit {0}))
    → ((m >> next) ≡ ok tt) ↔ ((m ≡ ok tt) × (next ≡ ok tt))
then_iff m next = ground arith

-- The checks pass exactly the valid settings.
pub validate_iff : (c : Config) → (validate c ≡ ok tt) ↔ IsValid c
unfolding validate
validate_iff c =
    let outer = then_iff (validate_database c) (validate_runtime c >> validate_processing c) in
    let inner = then_iff (validate_runtime c) (validate_processing c) in
    (
      λ h.
          let first = outer.0 h in
          let second = inner.0 first.1 in
          record {
            database = (validate_database_iff c).0 first.0;
            runtime = (validate_runtime_iff c).0 second.0;
            processing = (validate_processing_iff c).0 second.1;
          },
      λ v. outer.1 (
        (validate_database_iff c).1 v.database,
        inner.1 ((validate_runtime_iff c).1 v.runtime, (validate_processing_iff c).1 v.processing),
      ),
    )

-- What is loaded is what was read, once it is checked.
then_ok :
    (m : Result ConfigError (Unit {0})) (d c : Config) → (m >> ok d) ≡ ok c → (m ≡ ok tt) × (d ≡ c)
then_ok (ok tt) d c h = (refl, ap (λ r. elim r [ ok v ↦ v | err e ↦ d ]) h)
then_ok (err e) d c h = absurd (cc h)

pub load_cases :
    (p : Parsers) (lookup : Lookup) (c : Config)
    → load p lookup ≡ ok c
    → (load_rest p lookup (load_addresses lookup default_config) ≡ ok c) × (validate c ≡ ok tt)
unfolding load
load_cases p lookup c h =
    let read =
      bind_cases (load_rest p lookup (load_addresses lookup default_config))
        (λ d. validate d >> ok d) c h in
    let kept = then_ok (validate read.0) read.0 c read.2 in
    (read.1 ∙ ap ok kept.1, subst (λ d. validate d ≡ ok tt) kept.1 kept.0)

-- Whatever the environment says, and whatever the parsers make of it, the settings that are loaded
-- are valid.
pub load-IsValid : (p : Parsers) (lookup : Lookup) (c : Config) → load p lookup ≡ ok c → IsValid c
load-IsValid p lookup c h = (validate_iff c).0 (load_cases p lookup c h).1
