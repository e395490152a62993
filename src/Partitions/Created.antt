-- ===== src/Partitions/Created.antt =====
-- The loop over the hours ends, and it leaves a partition for each hour up to the horizon.
use market_data_backend.Prelude.{
  ℕ, zero, suc, ◌+◌, ◌-◌, ◌*◌, ◌/◌, ◌%◌, ◌≤◌, ◌<◌, String, Bool, false, Option, none, some, ltb,
  nat_eq, ◌||◌, String_eq, ◌≡◌, refl, inl, inr, arith, Bool-cases, Option-cases,
}
use market_data_backend.Partitions.{
  Database, DbCall, current_schema, DeltaPartitionConfig, hour, truncate_hour, Outcome,
  create_delta_partition, create_partitions, drop_expired, maintain_at,
}

module _ (name_of : ℕ → String) (fails : DbCall → Bool) where
  -- A round that is due, whatever the fuel after it.
  abbrev Ends : Option (Outcome name_of fails) → Type 0
  Ends o = (r : Outcome name_of fails) × (o ≡ some r)

  round-Ends :
      (fuel current horizon start : ℕ) (db : Database)
      → ((d : Database)
          → Ends (create_partitions name_of fails fuel current horizon (start + hour) d))
      → Ends (create_partitions name_of fails (suc fuel) current horizon start db)
  unfolding create_partitions
  round-Ends fuel current horizon start db next =
      elim (Bool-cases (ltb start horizon || nat_eq start current)) [
        | inr done ↦ ((db, none), rw (done, create_partitions) refl)
        | inl more ↦
            let made = create_delta_partition name_of fails db start in
            elim (Option-cases made.1) [
              | inr (e, bad) ↦ (made, rw (more, create_partitions, bad) refl)
              | inl good ↦
                  let rest = next made.0 in (rest.0, rw (more, create_partitions, good) (rest.1))
            ]
      ]

  -- One round for each hour that is left, and one to see the end.
  create_partitions-Ends :
      (n current horizon start : ℕ) (db : Database)
      → current < start
      → horizon ≤ start + n * hour
      → Ends (create_partitions name_of fails (suc n) current horizon start db)
  unfolding create_partitions
  create_partitions-Ends zero current horizon start db later reach =
      let done : (ltb start horizon || nat_eq start current) ≡ false =
        ground (arith, later, reach) in
      ((db, none), rw (done, create_partitions) refl)
  create_partitions-Ends (suc n) current horizon start db later reach =
      round-Ends (suc n) current horizon start db (λ d.
        create_partitions-Ends n current horizon (start + hour) d (omega arith)
          (omega (arith, reach)))

  -- A pass of the maintenance ends, whatever the database answers.
  pub maintain_at-Ends :
      (cfg : DeltaPartitionConfig) (db : Database) (now : ℕ)
      → (r : Outcome name_of fails) × (maintain_at name_of fails cfg db now ≡ some r)
  unfolding maintain_at truncate_hour
  maintain_at-Ends cfg db now = elim (Bool-cases (fails current_schema)) [
    | inl bad ↦ ((db, some current_schema), rw (bad, maintain_at) refl)
    | inr good ↦
        let current = now - now % hour in
        let horizon = now + cfg.precreate_horizon in
        let n = (horizon - current) / hour in
        let ends = round-Ends (suc n) current horizon current db (λ d.
          create_partitions-Ends n current horizon (current + hour) d (omega arith)
            (omega arith)) in
        (
          drop_expired name_of fails (now - cfg.retention) ends.0,
          rw (good, maintain_at, ends.1) refl,
        )
  ]
