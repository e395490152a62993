-- ===== src/Lease/Handover.antt =====
-- A lease that was taken can be extended in time, and one that was released can be taken at once.
use market_data_backend.Prelude.{
  String, Bool, true, false, some, ok, String_eq, ◌≡◌, refl, eq_test_iff, eq_test_self, arith,
}
use market_data_backend.Prelude.Map
use market_data_backend.Prelude.Int.{ℤ, pos, ◌<ℤ◌, leb_ℤ}
use market_data_backend.Model.{Time, GroupLease}
use market_data_backend.Lease.{Leases, new_lease, try_acquire_group_lease, release_group_lease}

-- When the owner releases its lease, any node can take the group at once.
pub try_acquire_group_lease-release_group_lease :
    (has_group : String → Bool) (now : Time) (rows : Leases) (group owner node : String) (ttl : ℤ)
    (l : GroupLease)
    → Map.lookup group rows ≡ some l
    → l.node_id ≡ owner
    → has_group group ≡ true
    → pos 0 <ℤ ttl
    → try_acquire_group_lease has_group now (release_group_lease rows group owner) group node ttl
      ≡ ok (true, Map.insert group (new_lease now group node ttl) (Map.delete group rows))
unfolding try_acquire_group_lease release_group_lease
try_acquire_group_lease-release_group_lease has_group now rows group owner node ttl l here own known
      h =
    let positive : leb_ℤ ttl (pos 0) ≡ false = ground arith in
    rw
      (
        here,
        (eq_test_iff l.node_id owner).1 own,
        positive,
        Map.lookup-delete group group rows,
        eq_test_self group,
        known,
      )
      refl
