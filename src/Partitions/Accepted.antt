-- ===== src/Partitions/Accepted.antt =====
-- internal/storage/partitions.go: passes that the database refuses nothing.
use mathlib.Core.Option.{some-injective}
use market_data_backend.Prelude.{
  ℕ, zero, suc, ◌+◌, ◌-◌, String, Bool, false, List, [], ◌∷◌, none, some, ltb, nat_eq, ◌||◌,
  String_eq, ◌≡◌, refl, sym, ap, subst, inl, inr, arith, Bool-cases, Option-cases,
}
use market_data_backend.Prelude.Map
use market_data_backend.Partitions.{
  Database, DbCall, current_schema, list_expired, DeltaPartitionConfig, hour, truncate_hour,
  Outcome, create_delta_partition, create_partitions, drop_table_of, drop_delta_partition, expired,
  drop_partitions, drop_expired, hours_between, maintain_at,
}

module _ (name_of : ℕ → String) (fails : DbCall → Bool)
    (accepts : (call : DbCall) → fails call ≡ false) where
  create_delta_partition-accepted :
      (db : Database) (start : ℕ) → (create_delta_partition name_of fails db start).1 ≡ none
  unfolding create_delta_partition
  create_delta_partition-accepted db start = ground (
    arith,
    accepts (DbCall.create_table (name_of (truncate_hour start))),
    accepts (DbCall.record_row (name_of (truncate_hour start))),
  )

  create_partitions-accepted :
      (fuel current horizon start : ℕ) (db : Database) (r : Outcome name_of fails)
      → create_partitions name_of fails fuel current horizon start db ≡ some r
      → r.1 ≡ none
  unfolding create_partitions
  create_partitions-accepted zero current horizon start db r h = absurd (cc h)
  create_partitions-accepted (suc fuel) current horizon start db r h =
      elim (Bool-cases (ltb start horizon || nat_eq start current)) [
        | inr done ↦ sym (
            ap (λ (o : Outcome name_of fails). o.1)
              (some-injective _ _ (rw (done, create_partitions) at h)))
        | inl more ↦
            create_partitions-accepted fuel current horizon (start + hour)
              (create_delta_partition name_of fails db start).0 r
              (rw (more, create_partitions, create_delta_partition-accepted db start) at h)
      ]

  drop_delta_partition-accepted :
      (db : Database) (name : String) → (drop_delta_partition name_of fails db name).1 ≡ none
  unfolding drop_delta_partition drop_table_of
  drop_delta_partition-accepted db name = ground (
    arith,
    accepts (DbCall.inspect name),
    accepts (DbCall.detach name),
    accepts (DbCall.drop_table name),
    accepts (DbCall.forget name),
  )

  drop_partitions-accepted :
      (db : Database) (names : List String) → (drop_partitions name_of fails db names).1 ≡ none
  unfolding drop_partitions
  drop_partitions-accepted db [] = refl
  drop_partitions-accepted db (name ∷ names) =
      rw (drop_delta_partition-accepted db name, drop_partitions)
        (drop_partitions-accepted (drop_delta_partition name_of fails db name).0 names)

  drop_expired-accepted :
      (cutoff : ℕ) (r : Outcome name_of fails)
      → r.1 ≡ none
      → (drop_expired name_of fails cutoff r).1 ≡ none
  unfolding drop_expired
  drop_expired-accepted cutoff (db, some e) h = absurd (cc h)
  drop_expired-accepted cutoff (db, none) h =
      rw (accepts list_expired, drop_expired)
        (drop_partitions-accepted db (Map.keys (expired name_of fails cutoff db)))

  pub maintain_at-accepted :
      (cfg : DeltaPartitionConfig) (db : Database) (now : ℕ) (r : Outcome name_of fails)
      → maintain_at name_of fails cfg db now ≡ some r
      → r.1 ≡ none
  unfolding maintain_at
  maintain_at-accepted cfg db now r h =
      let t = truncate_hour now in
      let horizon = now + cfg.precreate_horizon in
      let fuel = hours_between name_of fails t horizon in
      elim (Option-cases (create_partitions name_of fails fuel t horizon t db)) [
        | inl out ↦ absurd (cc (rw (accepts current_schema, maintain_at, out) at h))
        | inr (made, e) ↦
            subst (λ (o : Outcome name_of fails). o.1 ≡ none)
              (some-injective _ _ (rw (accepts current_schema, maintain_at, e) at h))
              (drop_expired-accepted (now - cfg.retention) made
                (create_partitions-accepted fuel t horizon t db made e))
      ]
