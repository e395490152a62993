-- ===== src/Tests/Leases.antt =====
-- Two nodes and one group.
use market_data_backend.Prelude.{
  String, Bool, true, false, List, [], ◌∷◌, some, ok, String_eq, ◌≡◌, refl, arith,
}
use market_data_backend.Prelude.Map
use market_data_backend.Prelude.Int.{ℤ, pos}
use market_data_backend.Lease.{
  Leases, new_lease, try_acquire_group_lease, renew_group_lease, release_group_lease,
}
use market_data_backend.Lease.Cluster.{Call, tick, acquire, renew, calls, no_leases}
use market_data_backend.Lease.Exclusive.{calls-exclusive}
use market_data_backend.Lease.Handover.{try_acquire_group_lease-release_group_lease}

abbrev any_group : String → Bool
any_group group = true

abbrev thirty : String → ℤ
thirty node = pos 30

-- The second node is refused, and the answer to the extension is lost.
abbrev ops : List Call
ops = acquire "a" "g" true ∷ tick 10 ∷ acquire "b" "g" true ∷ renew "a" "g" false ∷ tick 5 ∷ []

abbrev first : String
first = "a"

calls-exclusive_example : first ≡ first
unfolding calls try_acquire_group_lease renew_group_lease Map.lookup Map.insert
calls-exclusive_example =
    calls-exclusive any_group thirty (pos 100) ops "a" "a" "g" (pos 130) (pos 130) refl
      (omega arith) refl (omega arith)

abbrev taken : Leases
taken = ("g", new_lease (pos 100) "g" "a" (pos 30)) ∷ []

try_acquire_group_lease-release_group_lease_example :
    try_acquire_group_lease any_group (pos 110) (release_group_lease taken "g" "a") "g" "b" (pos 30)
    ≡ ok (true, Map.insert "g" (new_lease (pos 110) "g" "b" (pos 30)) (Map.delete "g" taken))
unfolding Map.lookup
try_acquire_group_lease-release_group_lease_example =
    try_acquire_group_lease-release_group_lease any_group (pos 110) taken "g" "a" "b" (pos 30)
      (new_lease (pos 100) "g" "a" (pos 30)) refl refl refl (omega arith)

-- The run: the first node owns the group, the second is refused.
second_refused : (calls any_group thirty (no_leases (pos 100)) ops).held "a" "g" ≡ some (pos 130)
unfolding calls try_acquire_group_lease renew_group_lease Map.lookup Map.insert
second_refused = refl
