-- ===== src/Lease/Cluster.antt =====
-- Nodes that share the table of leases: every interleaving of their calls, with a clock that never
-- goes back, and with answers that are lost on the way.
use market_data_backend.Prelude.{
  ℕ, String, Bool, true, false, List, [], ◌∷◌, Option, none, some, Result, ok, err, ◌==◌, String_eq,
  ◌&&◌, if◌then◌else◌,
}
use market_data_backend.Prelude.Int.{ℤ, pos, ◌+ℤ◌}
use market_data_backend.Model.{Time}
use market_data_backend.Lease.{
  Leases, try_acquire_group_lease, renew_group_lease, release_group_lease,
}

-- `held` is what a node knows: the expiry of a group's lease at its last answered call.
pub record Cluster : Type 0 where
  pub now : Time
  pub rows : Leases
  pub held : (node group : String) → Option Time

abbrev pub hold :
    String → String → Option Time → (String → String → Option Time) → String → String → Option Time
hold node group until held n g = if node == n && group == g then until else held n g

-- The clock moves, or a node calls the store; `heard` is false where the answer is lost, so that
-- the node learns nothing. A node calls `release` only when its worker has stopped.
pub data Call : Type 0 where
  tick : ℕ → Call
  acquire : (node group : String) (heard : Bool) → Call
  renew : (node group : String) (heard : Bool) → Call
  release : (node group : String) → Call

abbrev pub learn : Cluster → String → String → ℤ → Bool → Result String (Bool × Leases) → Cluster
learn c node group ttl heard (err e) = c
learn c node group ttl heard (ok (false, rows)) = record c { rows = rows }
learn c node group ttl false (ok (true, rows)) = record c { rows = rows }
learn c node group ttl true (ok (true, rows)) = record c {
  rows = rows;
  held = hold node group (some (c.now +ℤ ttl)) c.held;
}

module _ (has_group : String → Bool) (ttl_of : String → ℤ) where
  unfoldable pub call : Cluster → Call → Cluster
  unfolding try_acquire_group_lease renew_group_lease release_group_lease
  call c (tick d) = record c { now = c.now +ℤ pos d }
  call c (acquire node group heard) =
      let ttl = ttl_of node in
      learn c node group ttl heard (try_acquire_group_lease has_group c.now c.rows group node ttl)
  call c (renew node group heard) =
      let ttl = ttl_of node in
      learn c node group ttl heard (renew_group_lease c.now c.rows group node ttl)
  call c (release node group) = record {
    now = c.now;
    rows = release_group_lease c.rows group node;
    held = hold node group none c.held;
  }

  unfoldable pub calls : Cluster → List Call → Cluster
  unfolding call
  calls c [] = c
  calls c (op ∷ ops) = calls (call c op) ops

abbrev pub no_leases : Time → Cluster
no_leases now = record { now = now; rows = []; held = λ node group. none }
