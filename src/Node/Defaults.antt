-- ===== src/Node/Defaults.antt =====
-- The settings of a node once the defaults are in.
use market_data_backend.Prelude.{ℕ, ◌/◌, ◌≤◌, ◌<◌, ◌⊎◌, arith}
use market_data_backend.Prelude.Int.{ℤ, pos, pos_part, ◌≤ℤ◌, ◌<ℤ◌}
use market_data_backend.Node.{NodeConfig, or_default, renew_or_default, node_with_defaults}

or_default-positive : (x : ℤ) (d : ℕ) → 0 < d → pos 0 <ℤ or_default x (pos d)
or_default-positive x d h = ground arith

third : (n : ℕ) → 3 ≤ n → (0 < n / 3) × (n / 3 < n)
third n h = omega arith

-- A renewal comes before the lease runs out.
renew_or_default-bounds :
    (renew ttl : ℤ)
    → pos 3 ≤ℤ ttl
    → (pos 0 <ℤ renew_or_default renew ttl) × (renew_or_default renew ttl <ℤ ttl)
unfolding renew_or_default
renew_or_default-bounds renew ttl h = ground (arith, third (pos_part ttl))

-- Settings that count: every bound and every interval is above zero, and a lease is renewed before it
-- runs out.
pub record IsUsable (c : NodeConfig) : Type 0 where
  pub some_groups : pos 0 <ℤ c.max_groups
  pub some_weight : pos 0 <ℤ c.max_weight
  pub renews : pos 0 <ℤ c.renew_interval
  pub in_time : c.renew_interval <ℤ c.lease_ttl
  pub reconciles : pos 0 <ℤ c.reconcile_interval
  pub beats : pos 0 <ℤ c.heartbeat_interval
  pub stops : pos 0 <ℤ c.shutdown_timeout

long_enough : (ttl : ℤ) → ttl ≤ℤ pos 0 ⊎ pos 3 ≤ℤ ttl → pos 3 ≤ℤ or_default ttl (pos 30_000_000_000)
long_enough ttl h = ground arith

-- Whatever the settings, with a term of the lease that is unset or at least three nanoseconds, the
-- defaults make all bounds and intervals positive and the renewals shorter than the term.
pub node_with_defaults-IsUsable :
    (c : NodeConfig) → c.lease_ttl ≤ℤ pos 0 ⊎ pos 3 ≤ℤ c.lease_ttl → IsUsable (node_with_defaults c)
unfolding node_with_defaults
node_with_defaults-IsUsable c h =
    let ttl = or_default c.lease_ttl (pos 30_000_000_000) in
    let renewals = renew_or_default-bounds c.renew_interval ttl (long_enough c.lease_ttl h) in
    record {
      some_groups = or_default-positive c.max_groups 10 (omega arith);
      some_weight = or_default-positive c.max_weight 100 (omega arith);
      renews = renewals.0;
      in_time = renewals.1;
      reconciles = or_default-positive c.reconcile_interval 5_000_000_000 (omega arith);
      beats = or_default-positive c.heartbeat_interval 10_000_000_000 (omega arith);
      stops = or_default-positive c.shutdown_timeout 10_000_000_000 (omega arith);
    }
