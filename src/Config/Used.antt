-- ===== src/Config/Used.antt =====
-- cmd/md-stream-runtime/main.go: the loaded settings reach the node, and the database that is used.
use market_data_backend.Prelude.{String, ok, ◌>>=◌, ◌≡◌, refl, ◌∙◌, arith, some, bind_cases}
use market_data_backend.Prelude.Int.{ℤ, pos, ◌<ℤ◌}
use market_data_backend.Node.{NodeConfig, node_with_defaults, or_default, renew_or_default}
use market_data_backend.Config.{Config, Lookup, Parsers, default_config, set_value, string_env}
use market_data_backend.Config.Load.{
  load, load_rest, load_addresses, load_database, load_runtime, load_batches, load_order_book,
}
use market_data_backend.Config.Valid.{load_cases, load-IsValid}

-- The settings that `run` hands to the node.
unfoldable pub runtime_node_config : (node_id hostname pod_name : String) → Config → NodeConfig
runtime_node_config node_id hostname pod_name c = record {
  node_id = node_id;
  hostname = hostname;
  pod_name = pod_name;
  max_groups = c.runtime_max_groups;
  max_weight = c.runtime_max_weight;
  lease_ttl = c.lease_ttl;
  renew_interval = c.lease_renew_interval;
  reconcile_interval = c.reconcile_interval;
  heartbeat_interval = c.heartbeat_interval;
  shutdown_timeout = c.shutdown_timeout;
}

or_default-positive-id : (x d : ℤ) → pos 0 <ℤ x → or_default x d ≡ x
or_default-positive-id x d h = ground arith

renew_or_default-id : (r ttl : ℤ) → pos 0 <ℤ r → r <ℤ ttl → renew_or_default r ttl ≡ r
unfolding renew_or_default
renew_or_default-id r ttl h k = ground arith

-- A node runs with the loaded settings as they are: none of them is replaced by a default.
pub node_with_defaults-load :
    (p : Parsers) (lookup : Lookup) (c : Config) (node_id hostname pod_name : String)
    → load p lookup ≡ ok c
    → let n = runtime_node_config node_id hostname pod_name c in node_with_defaults n ≡ n
unfolding node_with_defaults runtime_node_config
node_with_defaults-load p lookup c node_id hostname pod_name h =
    let v = (load-IsValid p lookup c h).runtime in
    rw
      (
        or_default-positive-id c.runtime_max_groups (pos 10) v.max_groups,
        or_default-positive-id c.runtime_max_weight (pos 100) v.max_weight,
        or_default-positive-id c.lease_ttl (pos 30_000_000_000) v.lease_ttl,
        renew_or_default-id c.lease_renew_interval c.lease_ttl v.renew v.in_time,
        or_default-positive-id c.reconcile_interval (pos 5_000_000_000) v.reconcile,
        or_default-positive-id c.heartbeat_interval (pos 10_000_000_000) v.heartbeat,
        or_default-positive-id c.shutdown_timeout (pos 10_000_000_000) v.shutdown,
      )
      refl

load_database-dsn :
    (p : Parsers) (lookup : Lookup) (b c : Config)
    → load_database p lookup b ≡ ok c
    → c.database_dsn ≡ b.database_dsn
unfolding load_database
load_database-dsn p lookup b c h = ground arith

load_runtime-dsn :
    (p : Parsers) (lookup : Lookup) (b c : Config)
    → load_runtime p lookup b ≡ ok c
    → c.database_dsn ≡ b.database_dsn
unfolding load_runtime
load_runtime-dsn p lookup b c h = ground arith

load_batches-dsn :
    (p : Parsers) (lookup : Lookup) (b c : Config)
    → load_batches p lookup b ≡ ok c
    → c.database_dsn ≡ b.database_dsn
unfolding load_batches
load_batches-dsn p lookup b c h = ground arith

load_order_book-dsn :
    (p : Parsers) (lookup : Lookup) (b c : Config)
    → load_order_book p lookup b ≡ ok c
    → c.database_dsn ≡ b.database_dsn
unfolding load_order_book
load_order_book-dsn p lookup b c h = ground arith

-- The later settings leave the DSN alone.
load_rest-dsn :
    (p : Parsers) (lookup : Lookup) (b c : Config)
    → load_rest p lookup b ≡ ok c
    → c.database_dsn ≡ b.database_dsn
unfolding load_rest
load_rest-dsn p lookup b c h =
    let r1 =
      bind_cases (load_database p lookup b)
        (λ c1. load_runtime p lookup c1 >>= λ c2.
          load_batches p lookup c2 >>= λ c3. load_order_book p lookup c3)
        c h in
    let r2 =
      bind_cases (load_runtime p lookup r1.0)
        (λ c2. load_batches p lookup c2 >>= λ c3. load_order_book p lookup c3) c r1.2 in
    let r3 = bind_cases (load_batches p lookup r2.0) (λ c3. load_order_book p lookup c3) c r2.2 in
    load_order_book-dsn p lookup r3.0 c r3.2
    ∙ load_batches-dsn p lookup r2.0 r3.0 r3.1
    ∙ load_runtime-dsn p lookup r1.0 r2.0 r2.1
    ∙ load_database-dsn p lookup b r1.0 r1.1

-- Where `STORAGE_DSN` is set and not blank, the database of a loaded configuration is the one it
-- names, whatever `DATABASE_DSN` says.
pub load-storage_dsn :
    (p : Parsers) (lookup : Lookup) (dsn : String) (c : Config)
    → set_value lookup "STORAGE_DSN" ≡ some dsn
    → load p lookup ≡ ok c
    → c.database_dsn ≡ dsn
unfolding load_addresses string_env
load-storage_dsn p lookup dsn c s h =
    load_rest-dsn p lookup (load_addresses lookup default_config) c (load_cases p lookup c h).0
    ∙ rw (s, string_env) refl
