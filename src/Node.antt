-- ===== src/Node.antt =====
-- internal/runtime/node.go: the settings of a node.
pub mod Defaults
pub mod Rounds
use market_data_backend.Prelude.{ℕ, ◌/◌, String, Bool, if◌then◌else◌, ◌||◌}
use market_data_backend.Prelude.Int.{ℤ, pos, leb_ℤ, pos_part}

-- Durations are counted in nanoseconds.
pub record NodeConfig : Type 0 where
  pub node_id : String
  pub hostname : String
  pub pod_name : String
  pub max_groups : ℤ
  pub max_weight : ℤ
  pub lease_ttl : ℤ
  pub renew_interval : ℤ
  pub reconcile_interval : ℤ
  pub heartbeat_interval : ℤ
  pub shutdown_timeout : ℤ

abbrev pub default_shutdown_timeout : ℤ
default_shutdown_timeout = pos 10_000_000_000

-- A setting that is not above zero is replaced.
abbrev pub or_default : ℤ → ℤ → ℤ
or_default x default_value = if leb_ℤ x (pos 0) then default_value else x

-- The interval of the renewals; the term of the lease is above zero here.
unfoldable pub renew_or_default : (renew ttl : ℤ) → ℤ
renew_or_default renew ttl =
    if leb_ℤ renew (pos 0) || leb_ℤ ttl renew then pos (pos_part ttl / 3) else renew

unfoldable pub node_with_defaults : NodeConfig → NodeConfig
unfolding renew_or_default
node_with_defaults c =
    let ttl = or_default c.lease_ttl (pos 30_000_000_000) in
    record c {
      max_groups = or_default c.max_groups (pos 10);
      max_weight = or_default c.max_weight (pos 100);
      lease_ttl = ttl;
      renew_interval = renew_or_default c.renew_interval ttl;
      reconcile_interval = or_default c.reconcile_interval (pos 5_000_000_000);
      heartbeat_interval = or_default c.heartbeat_interval (pos 10_000_000_000);
      shutdown_timeout = or_default c.shutdown_timeout default_shutdown_timeout;
    }
