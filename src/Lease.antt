-- ===== src/Lease.antt =====
-- internal/metadata/postgres.go: the leases of the market groups, as the statements that take, extend
-- and drop a row of `market_leases`. The rows are a map from the group; `now` is the database clock.
pub mod Cluster
pub mod Faithful
pub mod Exclusive
pub mod Handover
use Prim.Native.String.{◌++◌}
use market_data_backend.Prelude.{
  String, Bool, true, false, List, Option, none, some, Result, ok, err, ◌==◌, String_eq, ◌||◌, ◌&&◌,
  if◌then◌else◌,
}
use market_data_backend.Prelude.Map
use market_data_backend.Prelude.Int.{ℤ, pos, ◌+ℤ◌, leb_ℤ, ltb_ℤ}
use market_data_backend.Model.{Time, GroupLease}

abbrev pub Leases : Type 0
Leases = List (String × GroupLease)

-- The row that the insertion writes.
abbrev pub new_lease : Time → String → String → ℤ → GroupLease
new_lease now group node ttl = record {
  group_id = group;
  node_id = node;
  lease_expires_at = now +ℤ ttl;
  version = pos 1;
  acquired_at = now;
  updated_at = now;
}

-- The row that the update on a conflict writes.
unfoldable pub taken_lease : Time → String → ℤ → GroupLease → GroupLease
taken_lease now node ttl l = record {
  group_id = l.group_id;
  node_id = node;
  lease_expires_at = now +ℤ ttl;
  version = l.version +ℤ pos 1;
  acquired_at = if l.node_id == node then l.acquired_at else now;
  updated_at = now;
}

-- `has_group` is the foreign key to the table of groups.
abbrev pub acquire_row :
    (has_group : String → Bool)
    → Time
    → Leases
    → String
    → String
    → ℤ
    → Option GroupLease
    → Result String (Bool × Leases)
acquire_row has_group now rows group node ttl none =
    if has_group group
    then ok (true, Map.insert group (new_lease now group node ttl) rows)
    else err ("not found: group " ++ group)
acquire_row has_group now rows group node ttl (some l) =
    if ltb_ℤ l.lease_expires_at now || l.node_id == node
    then ok (true, Map.insert group (taken_lease now node ttl l) rows)
    else ok (false, rows)

unfoldable pub try_acquire_group_lease :
    (has_group : String → Bool)
    → Time
    → Leases
    → String
    → String
    → ℤ
    → Result String (Bool × Leases)
unfolding taken_lease
try_acquire_group_lease has_group now rows group node ttl =
    if leb_ℤ ttl (pos 0)
    then err "metadata: lease ttl must be > 0"
    else acquire_row has_group now rows group node ttl (Map.lookup group rows)

abbrev pub renewed_lease : Time → ℤ → GroupLease → GroupLease
renewed_lease now ttl l = record l {
  lease_expires_at = now +ℤ ttl;
  version = l.version +ℤ pos 1;
  updated_at = now;
}

abbrev pub renew_row : Time → Leases → String → String → ℤ → Option GroupLease → Bool × Leases
renew_row now rows group node ttl none = (false, rows)
renew_row now rows group node ttl (some l) =
    if l.node_id == node && leb_ℤ now l.lease_expires_at
    then (true, Map.insert group (renewed_lease now ttl l) rows)
    else (false, rows)

unfoldable pub renew_group_lease :
    Time → Leases → String → String → ℤ → Result String (Bool × Leases)
renew_group_lease now rows group node ttl =
    if leb_ℤ ttl (pos 0)
    then err "metadata: lease ttl must be > 0"
    else ok (renew_row now rows group node ttl (Map.lookup group rows))

abbrev pub release_row : Leases → String → String → Option GroupLease → Leases
release_row rows group node none = rows
release_row rows group node (some l) = if l.node_id == node then Map.delete group rows else rows

unfoldable pub release_group_lease : Leases → String → String → Leases
release_group_lease rows group node = release_row rows group node (Map.lookup group rows)
