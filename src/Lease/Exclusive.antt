-- ===== src/Lease/Exclusive.antt =====
-- At most one node holds a group at a time, whatever the nodes call and whichever answers are lost.
use market_data_backend.Prelude.{
  String, Bool, true, false, List, [], ◌∷◌, Option, none, some, ok, ◌==◌, String_eq, ◌&&◌, ◌≡◌,
  refl, sym, ◌∙◌, subst, eq_test_iff, Bool-cases, inl, inr,
}
use market_data_backend.Prelude.Map
use market_data_backend.Prelude.Int.{ℤ, pos, ◌+ℤ◌, ◌≤ℤ◌, leb_ℤ, ltb_ℤ}
use market_data_backend.Model.{Time, GroupLease}
use market_data_backend.Lease.{
  acquire_row, renew_row, release_row, new_lease, taken_lease, renewed_lease,
  try_acquire_group_lease, renew_group_lease, release_group_lease,
}
use market_data_backend.Lease.Cluster.{
  Cluster, hold, Call, tick, acquire, renew, release, learn, call, calls, no_leases,
}
use market_data_backend.Lease.Faithful.{
  Backing, tick-IsFaithful, no_leases-IsFaithful, granted-IsFaithful, denied-IsFaithful, Free-owner,
  Free-expired, Free-none, IsFaithful, Bounded, Free,
}

module _ (has_group : String → Bool) (ttl_of : String → ℤ) where
  taken_lease-node :
      (now : Time) (node : String) (ttl : ℤ) (l : GroupLease)
      → ((taken_lease now node ttl l).node_id ≡ node)
        × ((taken_lease now node ttl l).lease_expires_at ≡ (now +ℤ ttl))
  unfolding taken_lease
  taken_lease-node now node ttl l = (refl, refl)

  taken-IsFaithful :
      (c : Cluster) (node group : String) (heard : Bool) (l : GroupLease)
      → IsFaithful ttl_of c
      → Free ttl_of c node group
      → IsFaithful ttl_of (
          learn c node group
            (ttl_of node)
            heard
            (ok (true, Map.insert group (taken_lease c.now node (ttl_of node) l) c.rows)))
  taken-IsFaithful c node group heard l f free =
      let at = taken_lease-node c.now node (ttl_of node) l in
      granted-IsFaithful ttl_of c node group heard (taken_lease c.now node (ttl_of node) l) f free
        at.0 at.1

  acquire_row-IsFaithful :
      (c : Cluster) (node group : String) (heard : Bool) (row : Option GroupLease)
      → IsFaithful ttl_of c
      → Map.lookup group c.rows ≡ row
      → IsFaithful ttl_of (
          learn c node group
            (ttl_of node)
            heard
            (acquire_row has_group c.now c.rows group node (ttl_of node) row))
  acquire_row-IsFaithful c node group heard none f here = elim (Bool-cases (has_group group)) [
    | inl known ↦ rw known (
        granted-IsFaithful ttl_of c node group heard (new_lease c.now group node (ttl_of node)) f
          (Free-none ttl_of c node group f here) refl refl)
    | inr unknown ↦ rw unknown f
  ]
  acquire_row-IsFaithful c node group heard (some l) f here =
      elim (Bool-cases (ltb_ℤ l.lease_expires_at c.now)) [
        | inl past ↦ rw past (
            taken-IsFaithful c node group heard l f
              (Free-expired ttl_of c node group l f here past))
        | inr valid ↦ elim (Bool-cases (l.node_id == node)) [
          | inl own ↦
              rw (valid, own)
                (taken-IsFaithful c node group heard l f
                  (Free-owner ttl_of c node group l f here ((eq_test_iff l.node_id node).0 own)))
          | inr other ↦ rw (valid, other) (denied-IsFaithful ttl_of c node group heard f)
        ]
      ]

  renew_row-IsFaithful :
      (c : Cluster) (node group : String) (heard : Bool) (row : Option GroupLease)
      → IsFaithful ttl_of c
      → Map.lookup group c.rows ≡ row
      → IsFaithful ttl_of (
          learn c node group
            (ttl_of node)
            heard
            (ok (renew_row c.now c.rows group node (ttl_of node) row)))
  renew_row-IsFaithful c node group heard none f here =
      denied-IsFaithful ttl_of c node group heard f
  renew_row-IsFaithful c node group heard (some l) f here = elim (Bool-cases (l.node_id == node)) [
    | inl own ↦ elim (Bool-cases (leb_ℤ c.now l.lease_expires_at)) [
      | inl valid ↦
          rw (own, valid)
            (granted-IsFaithful ttl_of c node group heard (renewed_lease c.now (ttl_of node) l) f
              (Free-owner ttl_of c node group l f here ((eq_test_iff l.node_id node).0 own))
              ((eq_test_iff l.node_id node).0 own) refl)
      | inr past ↦ rw (own, past) (denied-IsFaithful ttl_of c node group heard f)
    ]
    | inr other ↦ rw other (denied-IsFaithful ttl_of c node group heard f)
  ]

  -- A release forgets the lease that the node knows of.
  hold-none :
      (held : (node group : String) → Option Time) (node group n g : String) (until : Time)
      → hold node group none held n g ≡ some until
      → ((node == n && group == g) ≡ false) × (held n g ≡ some until)
  hold-none held node group n g until h = elim (Bool-cases (node == n && group == g)) [
    | inl same ↦ absurd (cc (rw same at h))
    | inr other ↦ (other, rw other at h)
  ]

  deleted-Bounded :
      (c : Cluster) (group g : String)
      → IsFaithful ttl_of c
      → Bounded ttl_of c.now (Map.lookup g (Map.delete group c.rows))
  deleted-Bounded c group g f =
      rw (Map.lookup-delete g group c.rows) (elim (Bool-cases (group == g)) [
        | inl same ↦ rw same tt
        | inr other ↦ rw other (f.bounded g)
      ])

  deleted-Backing :
      (c : Cluster) (node group : String) (l : GroupLease) (n g : String) (until : Time)
      → IsFaithful ttl_of c
      → Map.lookup group c.rows ≡ some l
      → l.node_id ≡ node
      → c.now ≤ℤ until
      → ((node == n && group == g) ≡ false) × (c.held n g ≡ some until)
      → Backing (Map.lookup g (Map.delete group c.rows)) n until
  deleted-Backing c node group l n g until f here own k (apart, held) =
      rw (Map.lookup-delete g group c.rows) (elim (Bool-cases (group == g)) [
        | inl same ↦
            let at = (eq_test_iff group g).0 same in
            let backed =
              subst (λ r. Backing r n until) here
                (f.backing n group until (subst (λ x. c.held n x ≡ some until) (sym at) held) k) in
            absurd (cc (rw ((eq_test_iff node n).1 (sym own ∙ backed.0), same) at apart))
        | inr other ↦ rw other (f.backing n g until held k)
      ])

  release_row-IsFaithful :
      (c : Cluster) (node group : String) (row : Option GroupLease)
      → IsFaithful ttl_of c
      → Map.lookup group c.rows ≡ row
      → IsFaithful ttl_of (record {
        now = c.now;
        rows = release_row c.rows group node row;
        held = hold node group none c.held;
      })
  release_row-IsFaithful c node group none f here = record {
    bounded = f.bounded;
    backing = λ n g u h k. f.backing n g u (hold-none c.held node group n g u h).1 k;
  }
  release_row-IsFaithful c node group (some l) f here = elim (Bool-cases (l.node_id == node)) [
    | inl own ↦ rw own (record {
      bounded = λ g. deleted-Bounded c group g f;
      backing = λ n g u h k.
          deleted-Backing c node group l n g u f here ((eq_test_iff l.node_id node).0 own) k
            (hold-none c.held node group n g u h);
    })
    | inr other ↦ rw other (record {
      bounded = f.bounded;
      backing = λ n g u h k. f.backing n g u (hold-none c.held node group n g u h).1 k;
    })
  ]

  call-IsFaithful :
      (c : Cluster) (op : Call)
      → IsFaithful ttl_of c
      → IsFaithful ttl_of (call has_group ttl_of c op)
  unfolding call try_acquire_group_lease renew_group_lease release_group_lease
  call-IsFaithful c (tick d) f = tick-IsFaithful ttl_of c d f
  call-IsFaithful c (acquire node group heard) f = elim (Bool-cases (leb_ℤ (ttl_of node) (pos 0))) [
    | inl unset ↦ rw unset f
    | inr positive ↦
        rw positive (acquire_row-IsFaithful c node group heard (Map.lookup group c.rows) f refl)
  ]
  call-IsFaithful c (renew node group heard) f = elim (Bool-cases (leb_ℤ (ttl_of node) (pos 0))) [
    | inl unset ↦ rw unset f
    | inr positive ↦
        rw positive (renew_row-IsFaithful c node group heard (Map.lookup group c.rows) f refl)
  ]
  call-IsFaithful c (release node group) f =
      release_row-IsFaithful c node group (Map.lookup group c.rows) f refl

  calls-IsFaithful :
      (c : Cluster) (ops : List Call)
      → IsFaithful ttl_of c
      → IsFaithful ttl_of (calls has_group ttl_of c ops)
  unfolding calls
  calls-IsFaithful c [] f = f
  calls-IsFaithful c (op ∷ ops) f =
      calls-IsFaithful (call has_group ttl_of c op) ops (call-IsFaithful c op f)

  same_owner :
      (row : Option GroupLease) (a b : String) (u v : Time)
      → Backing row a u
      → Backing row b v
      → a ≡ b
  same_owner none a b u v p q = absurd p
  same_owner (some l) a b u v p q = sym p.0 ∙ q.0

  -- From an empty table of leases, whatever the nodes call in whatever order, with answers lost and
  -- with the clock of the database never going back: two nodes that both know of a lease of one
  -- group that has not run out are the same node. Each node asks for one and the same term.
  pub calls-exclusive :
      (start : Time) (ops : List Call) (a b group : String) (u v : Time)
      → let c = calls has_group ttl_of (no_leases start) ops in
        c.held a group ≡ some u → c.now ≤ℤ u → c.held b group ≡ some v → c.now ≤ℤ v → a ≡ b
  calls-exclusive start ops a b group u v p p_valid q q_valid =
      let c = calls has_group ttl_of (no_leases start) ops in
      let f = calls-IsFaithful (no_leases start) ops (no_leases-IsFaithful ttl_of start) in
      same_owner (Map.lookup group c.rows) a b u v (f.backing a group u p p_valid)
        (f.backing b group v q q_valid)
