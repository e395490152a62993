-- ===== src/Lease/Faithful.antt =====
-- The invariant of the nodes and their leases, and how a granted row keeps it.
use market_data_backend.Prelude.{
  ℕ, String, Bool, true, false, Option, none, some, ok, ◌==◌, String_eq, ◌≡◌, sym, ◌∙◌, subst,
  eq_test_iff, Bool-cases, inl, inr, arith,
}
use mathlib.Core.Option.{some-injective}
use market_data_backend.Prelude.Map
use market_data_backend.Prelude.Int.{ℤ, pos, ◌+ℤ◌, ◌≤ℤ◌, ltb_ℤ}
use market_data_backend.Model.{Time, GroupLease}
use market_data_backend.Lease.Cluster.{Cluster, hold, learn, no_leases}

-- The row stands behind a node that knows of a lease until `until`.
abbrev pub Backing : Option GroupLease → String → Time → Type 0
Backing none node until = ⊥
Backing (some l) node until = (l.node_id ≡ node) × (until ≤ℤ l.lease_expires_at)

module _ (ttl_of : String → ℤ) where
  abbrev pub Bounded : Time → Option GroupLease → Type 0
  Bounded now none = Unit
  Bounded now (some l) = l.lease_expires_at ≤ℤ (now +ℤ ttl_of l.node_id)

  -- No row outlives the term of its node, and a row stands behind each lease that a node knows of
  -- and that has not run out.
  pub record IsFaithful (c : Cluster) : Type 0 where
    pub bounded : (group : String) → Bounded c.now (Map.lookup group c.rows)
    pub backing :
        (node group : String) (until : Time)
        → c.held node group ≡ some until
        → c.now ≤ℤ until
        → Backing (Map.lookup group c.rows) node until

  pub no_leases-IsFaithful : (now : Time) → IsFaithful (no_leases now)
  unfolding Map.lookup
  no_leases-IsFaithful now = record { bounded = λ g. tt; backing = λ n g u h. absurd (cc h) }

  Bounded-tick :
      (now : Time) (d : ℕ) (row : Option GroupLease) → Bounded now row → Bounded (now +ℤ pos d) row
  Bounded-tick now d none b = tt
  Bounded-tick now d (some l) b = ground arith

  pub tick-IsFaithful :
      (c : Cluster) (d : ℕ) → IsFaithful c → IsFaithful (record c { now = c.now +ℤ pos d })
  tick-IsFaithful c d f = record {
    bounded = λ g. Bounded-tick c.now d (Map.lookup g c.rows) (f.bounded g);
    backing = λ n g u h k. f.backing n g u h (earlier u k);
  }
    where
      earlier : (u : Time) → (c.now +ℤ pos d) ≤ℤ u → c.now ≤ℤ u
      earlier u k = ground arith

  -- What a row must be for `node` to take it: no other node knows of a lease that has not run out.
  abbrev pub Free : Cluster → String → String → Type 0
  Free c node group =
      (n : String) (until : Time)
      → c.held n group ≡ some until
      → c.now ≤ℤ until
      → (node ≡ n) × (until ≤ℤ (c.now +ℤ ttl_of node))

  le_refl : (x : ℤ) → x ≤ℤ x
  le_refl x = omega arith

  le_trans : (x y z : ℤ) → x ≤ℤ y → y ≤ℤ z → x ≤ℤ z
  le_trans x y z p q = omega arith

  term :
      (c : Cluster) (node : String) (l : GroupLease)
      → l.node_id ≡ node
      → l.lease_expires_at ≡ (c.now +ℤ ttl_of node)
      → Bounded c.now (some l)
  term c node l own expires = rw (own, expires) (le_refl (c.now +ℤ ttl_of node))

  put-Bounded :
      (c : Cluster) (group : String) (l : GroupLease)
      → IsFaithful c
      → Bounded c.now (some l)
      → (g : String) → Bounded c.now (Map.lookup g (Map.insert group l c.rows))
  put-Bounded c group l f b g =
      rw (Map.lookup-insert g group l c.rows) (elim (Bool-cases (group == g)) [
        | inl same ↦ rw same b
        | inr other ↦ rw other (f.bounded g)
      ])

  -- The leases known after an answer: unheard, they are the old ones.
  abbrev heard_held : Cluster → String → String → Bool → (node group : String) → Option Time
  heard_held c node group true = hold node group (some (c.now +ℤ ttl_of node)) c.held
  heard_held c node group false = c.held

  put-Backing :
      (c : Cluster) (node group : String) (heard : Bool) (l : GroupLease)
      → IsFaithful c
      → Free c node group
      → l.node_id ≡ node
      → l.lease_expires_at ≡ (c.now +ℤ ttl_of node)
      → (n g : String) (until : Time) → heard_held c node group heard n g ≡ some until
      → c.now ≤ℤ until
      → Backing (Map.lookup g (Map.insert group l c.rows)) n until
  put-Backing c node group heard l f free own expires n g until h k =
      rw (Map.lookup-insert g group l c.rows) (elim (Bool-cases (group == g)) [
        | inl same ↦ rw same (mine heard ((eq_test_iff group g).0 same) h)
        | inr other ↦ rw other (f.backing n g until (theirs heard other h) k)
      ])
    where
      by_free :
          (node ≡ n) × (until ≤ℤ (c.now +ℤ ttl_of node))
          → (l.node_id ≡ n) × (until ≤ℤ l.lease_expires_at)
      by_free (e, le) = (own ∙ e, subst (λ t. until ≤ℤ t) (sym expires) le)

      old : group ≡ g → c.held n g ≡ some until → (l.node_id ≡ n) × (until ≤ℤ l.lease_expires_at)
      old e held = by_free (free n until (subst (λ x. c.held n x ≡ some until) (sym e) held) k)

      mine :
          (b : Bool)
          → group ≡ g
          → heard_held c node group b n g ≡ some until
          → (l.node_id ≡ n) × (until ≤ℤ l.lease_expires_at)
      mine false e held = old e held
      mine true e held = elim (Bool-cases (node == n)) [
        | inl self ↦
            let told =
              some-injective (c.now +ℤ ttl_of node) until
                (rw (self, (eq_test_iff group g).1 e) at held) in
            (
              own ∙ (eq_test_iff node n).0 self,
              subst (λ t. t ≤ℤ l.lease_expires_at) (expires ∙ told) (le_refl l.lease_expires_at),
            )
        | inr stranger ↦ old e (rw stranger at held)
      ]

      theirs :
          (b : Bool)
          → (group == g) ≡ false
          → heard_held c node group b n g ≡ some until
          → c.held n g ≡ some until
      theirs false e held = held
      theirs true e held = elim (Bool-cases (node == n)) [
        | inl self ↦ rw (self, e) at held
        | inr stranger ↦ rw stranger at held
      ]

  pub granted-IsFaithful :
      (c : Cluster) (node group : String) (heard : Bool) (l : GroupLease)
      → IsFaithful c
      → Free c node group
      → l.node_id ≡ node
      → l.lease_expires_at ≡ (c.now +ℤ ttl_of node)
      → IsFaithful (learn c node group (ttl_of node) heard (ok (true, Map.insert group l c.rows)))
  granted-IsFaithful c node group true l f free own expires = record {
    bounded = put-Bounded c group l f (term c node l own expires);
    backing = put-Backing c node group true l f free own expires;
  }
  granted-IsFaithful c node group false l f free own expires = record {
    bounded = put-Bounded c group l f (term c node l own expires);
    backing = put-Backing c node group false l f free own expires;
  }

  pub denied-IsFaithful :
      (c : Cluster) (node group : String) (heard : Bool)
      → IsFaithful c
      → IsFaithful (learn c node group (ttl_of node) heard (ok (false, c.rows)))
  denied-IsFaithful c node group true f = f
  denied-IsFaithful c node group false f = f

  pub Free-owner :
      (c : Cluster) (node group : String) (l : GroupLease)
      → IsFaithful c
      → Map.lookup group c.rows ≡ some l
      → l.node_id ≡ node
      → Free c node group
  Free-owner c node group l f here own n until held k =
      let backed = subst (λ r. Backing r n until) here (f.backing n group until held k) in
      let limit = subst (Bounded c.now) here (f.bounded group) in
      (
        sym own ∙ backed.0,
        subst (λ x. until ≤ℤ (c.now +ℤ ttl_of x)) own
            (le_trans until l.lease_expires_at (c.now +ℤ ttl_of l.node_id) backed.1 limit),
      )

  pub Free-expired :
      (c : Cluster) (node group : String) (l : GroupLease)
      → IsFaithful c
      → Map.lookup group c.rows ≡ some l
      → ltb_ℤ l.lease_expires_at c.now ≡ true
      → Free c node group
  Free-expired c node group l f here past n until held k =
      let backed = subst (λ r. Backing r n until) here (f.backing n group until held k) in
      absurd (ground (arith, backed.1))

  pub Free-none :
      (c : Cluster) (node group : String)
      → IsFaithful c
      → Map.lookup group c.rows ≡ none
      → Free c node group
  Free-none c node group f here n until held k =
      absurd (subst (λ r. Backing r n until) here (f.backing n group until held k))
