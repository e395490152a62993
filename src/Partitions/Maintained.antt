-- ===== src/Partitions/Maintained.antt =====
-- A whole pass of the maintenance.
use mathlib.Core.Option.{some-injective}
use market_data_backend.Prelude.{
  ℕ, zero, suc, ◌+◌, ◌-◌, ◌*◌, ◌/◌, ◌≤◌, ◌<◌, String, Bool, none, some, ltb, nat_eq, ◌||◌,
  String_eq, ◌≡◌, refl, ap, ◌∙◌, subst, ◌⊎◌, inl, inr, arith, Bool-cases, Option-cases,
}
use market_data_backend.Prelude.Map
use market_data_backend.Partitions.{
  Database, DbCall, current_schema, DeltaPartitionConfig, hour, truncate_hour, Outcome,
  create_delta_partition, create_partitions, drop_expired, hours_between, maintain_at,
}
use market_data_backend.Partitions.Kept.{drop_expired-keeps}
use market_data_backend.Partitions.Covered.{
  range_of, IsFree, HasPartition, create_partitions-HasPartition,
}

pub truncate_hour_lem : (now : ℕ) → truncate_hour now ≡ now / hour * hour
unfolding truncate_hour
truncate_hour_lem now = omega arith

module _ (name_of : ℕ → String) (fails : DbCall → Bool) where
  pub create_delta_partition-Distinct :
      (db : Database) (start : ℕ)
      → Map.Distinct db.rows
      → Map.Distinct (create_delta_partition name_of fails db start).0.rows
  unfolding create_delta_partition
  create_delta_partition-Distinct db start d = ground (
    arith,
    Map.insert-Distinct (name_of (truncate_hour start))
        (record { range_start = truncate_hour start; range_end = truncate_hour start + hour })
        db.rows d,
  )

  create_partitions-Distinct :
      (fuel current horizon start : ℕ) (db : Database) (r : Outcome name_of fails)
      → Map.Distinct db.rows
      → create_partitions name_of fails fuel current horizon start db ≡ some r
      → Map.Distinct r.0.rows
  unfolding create_partitions
  create_partitions-Distinct zero current horizon start db r d h = absurd (cc h)
  create_partitions-Distinct (suc fuel) current horizon start db r d h =
      let made = create_delta_partition name_of fails db start in
      let kept = create_delta_partition-Distinct db start d in
      elim (Bool-cases (ltb start horizon || nat_eq start current)) [
        | inr done ↦
            subst (λ (o : Outcome name_of fails). Map.Distinct o.0.rows)
              (some-injective _ _ (rw (done, create_partitions) at h)) d
        | inl more ↦ elim (Option-cases made.1) [
          | inr (e, bad) ↦
              subst (λ (o : Outcome name_of fails). Map.Distinct o.0.rows)
                (some-injective _ _ (rw (more, create_partitions, bad) at h)) kept
          | inl good ↦
              create_partitions-Distinct fuel current horizon (start + hour) made.0 r kept
                (rw (more, create_partitions, good) at h)
        ]
      ]

  -- What follows the loop drops none of the hours that are not behind the cutoff.
  drop_expired-HasPartition :
      (db : Database) (cutoff b : ℕ)
      → Map.Distinct db.rows
      → cutoff < b * hour + hour
      → HasPartition name_of fails b db
      → HasPartition name_of fails b (drop_expired name_of fails cutoff (db, none)).0
  drop_expired-HasPartition db cutoff b d l p =
      let kept =
        drop_expired-keeps name_of fails db cutoff (name_of (b * hour)) (range_of b) d p.row l in
      record { row = kept.0; table = kept.1 ∙ p.table }

  -- A pass without a refused statement went through the loop without one.
  passed :
      (cutoff : ℕ) (after : Database) (r : Outcome name_of fails)
      → Path (Outcome name_of fails) (drop_expired name_of fails cutoff r) (after, none)
      → (r.1 ≡ none) × ((drop_expired name_of fails cutoff (r.0, none)).0 ≡ after)
  unfolding drop_expired
  passed cutoff after (mid, some e) h = absurd (cc (ap (λ (o : Outcome name_of fails). o.1) h))
  passed cutoff after (mid, none) h = (refl, ap (λ (o : Outcome name_of fails). o.0) h)

  -- A pass at the instant `now` that the database refuses nothing leaves a partition, its row and its
  -- attached table, for the hour of `now` and for each hour after it that begins before the horizon,
  -- where the names of different hours are different, no name stood twice among the rows, and no
  -- detached table had the name of the hour.
  pub maintain_at-HasPartition :
      (cfg : DeltaPartitionConfig) (db after : Database) (now b : ℕ)
      → ((i j : ℕ) → name_of (i * hour) ≡ name_of (j * hour) → i ≡ j)
      → Map.Distinct db.rows
      → IsFree (name_of (b * hour)) db.tables
      → maintain_at name_of fails cfg db now ≡ some (after, none)
      → now / hour ≤ b
      → (b * hour < now + cfg.precreate_horizon) ⊎ (b ≡ now / hour)
      → HasPartition name_of fails b after
  unfolding maintain_at
  maintain_at-HasPartition cfg db after now b names d free h le due =
      elim (Bool-cases (fails current_schema)) [
        | inl bad ↦ absurd (
            cc (
              ap (λ (r : Outcome name_of fails). r.1)
                (some-injective _ _ (rw (bad, maintain_at) at h))))
        | inr good ↦
            let t = truncate_hour now in
            let horizon = now + cfg.precreate_horizon in
            elim (Option-cases (
              create_partitions name_of fails (hours_between name_of fails t horizon) t horizon t
                db)) [
                  | inl out ↦ absurd (cc (rw (good, maintain_at, out) at h))
                  | inr (r, made) ↦
                      let finish =
                        passed (now - cfg.retention) after r
                          (some-injective _ _ (rw (good, maintain_at, made) at h)) in
                      let clean : create_partitions name_of fails
                            (hours_between name_of fails t horizon) (now / hour * hour) horizon
                            (now / hour * hour) db
                          ≡ some (r.0, none) =
                        subst
                          (λ u.
                            create_partitions name_of fails (hours_between name_of fails t horizon)
                              u horizon u db
                            ≡ some (r.0, none))
                          (truncate_hour_lem now) (made ∙ ap (λ o. some (r.0, o)) finish.0) in
                      subst (λ x. HasPartition name_of fails b x) finish.1
                        (drop_expired-HasPartition r.0 (now - cfg.retention) b
                          (create_partitions-Distinct (hours_between name_of fails t horizon) t
                            horizon t db r d made)
                          (omega (arith, le))
                          (create_partitions-HasPartition name_of fails names
                            (hours_between name_of fails t horizon) (now / hour) (now / hour) b
                            horizon db r.0 (omega arith) clean (inr (le, due, free))))
                ]
      ]
