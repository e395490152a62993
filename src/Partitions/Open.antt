-- ===== src/Partitions/Open.antt =====
-- internal/storage/partitions.go: what a pass does about an hour that is to come.
use mathlib.Core.Option.{some-injective}
use market_data_backend.Prelude.{
  ℕ, zero, suc, ◌+◌, ◌-◌, ◌*◌, ◌/◌, ◌<◌, String, Bool, false, List, [], ◌∷◌, none, some, ltb, leb,
  nat_eq, ◌||◌, String_eq, ◌==◌, ◌≡◌, refl, sym, ap, ◌∙◌, subst, ◌⊎◌, inl, inr, arith, Bool-cases,
  Option-cases, keep, contains, eq_test_iff,
}
use market_data_backend.Prelude.Map
use market_data_backend.Partitions.{
  Range, Database, DbCall, current_schema, list_expired, DeltaPartitionConfig, hour, truncate_hour,
  Outcome, create_if_missing, create_delta_partition, create_partitions, drop_table_of,
  drop_delta_partition, expired, drop_partitions, drop_expired, hours_between, maintain_at,
}
use market_data_backend.Partitions.Kept.{keys-keep, keys-sort, expired_lem, drop_partitions-keeps}
use market_data_backend.Partitions.Covered.{
  range_of, IsFree, truncate_hour-id, create_if_missing-IsFree,
}
use market_data_backend.Partitions.Maintained.{truncate_hour_lem, create_delta_partition-Distinct}

module _ (name_of : ℕ → String)
    (distinct_names : (i j : ℕ) → name_of (i * hour) ≡ name_of (j * hour) → i ≡ j) where
  -- Nothing stands in the way of the hour `b`: its row, if it has one, names its range, and its table
  -- is not detached.
  pub record IsOpen (b : ℕ) (db : Database) : Type 0 where
    pub distinct : Map.Distinct db.rows
    pub free : IsFree (name_of (b * hour)) db.tables
    row :
        (Map.lookup (name_of (b * hour)) db.rows ≡ none)
        ⊎ (Map.lookup (name_of (b * hour)) db.rows ≡ some (range_of b))

  module _ (fails : DbCall → Bool) where
    -- What a creation does to the tables and to the rows, refused or not.
    create_delta_partition-cases :
        (db : Database) (a : ℕ)
        → let made = create_delta_partition name_of fails db (a * hour) in
          ((made.0.tables ≡ db.tables)
            ⊎ (made.0.tables ≡ create_if_missing name_of fails (name_of (a * hour)) db.tables))
          × ((made.0.rows ≡ db.rows)
              ⊎ (made.0.rows ≡ Map.insert (name_of (a * hour)) (range_of a) db.rows))
    unfolding create_delta_partition
    create_delta_partition-cases db a = ground (arith, truncate_hour-id a)

    create_delta_partition-row :
        (db : Database) (a b : ℕ)
        → IsOpen b db
        → let made = create_delta_partition name_of fails db (a * hour) in
          (Map.lookup (name_of (b * hour)) made.0.rows ≡ none)
          ⊎ (Map.lookup (name_of (b * hour)) made.0.rows ≡ some (range_of b))
    create_delta_partition-row db a b o = elim (create_delta_partition-cases db a).1 [
      | inl same ↦ rw same (o.row)
      | inr new ↦ elim (Bool-cases (name_of (a * hour) == name_of (b * hour))) [
        | inl here ↦ inr (
            ap (Map.lookup (name_of (b * hour))) new
            ∙ Map.lookup-insert (name_of (b * hour)) (name_of (a * hour)) (range_of a) db.rows
            ∙ rw
                (
                  here,
                  distinct_names a b
                      ((eq_test_iff (name_of (a * hour)) (name_of (b * hour))).0 here),
                )
                refl)
        | inr other ↦
            let kept =
              ap (Map.lookup (name_of (b * hour))) new
              ∙ Map.lookup-insert (name_of (b * hour)) (name_of (a * hour)) (range_of a) db.rows
              ∙ rw other refl in
            elim o.row [ inl p ↦ inl (kept ∙ p) | inr p ↦ inr (kept ∙ p) ]
      ]
    ]

    create_delta_partition-IsOpen :
        (db : Database) (a b : ℕ)
        → IsOpen b db
        → IsOpen b (create_delta_partition name_of fails db (a * hour)).0
    create_delta_partition-IsOpen db a b o = record {
      distinct = create_delta_partition-Distinct name_of fails db (a * hour) o.distinct;
      free = elim (create_delta_partition-cases db a).0 [
        | inl same ↦ subst (IsFree (name_of (b * hour))) (sym same) o.free
        | inr new ↦ subst (IsFree (name_of (b * hour))) (sym new) (
            create_if_missing-IsFree name_of fails (name_of (a * hour)) (name_of (b * hour))
              db.tables o.free)
      ];
      row = create_delta_partition-row db a b o;
    }

    create_partitions-IsOpen :
        (fuel current horizon a b : ℕ) (db : Database) (r : Outcome name_of fails)
        → IsOpen b db
        → create_partitions name_of fails fuel current horizon (a * hour) db ≡ some r
        → IsOpen b r.0
    unfolding create_partitions
    create_partitions-IsOpen zero current horizon a b db r o h = absurd (cc h)
    create_partitions-IsOpen (suc fuel) current horizon a b db r o h =
        let made = create_delta_partition name_of fails db (a * hour) in
        let kept = create_delta_partition-IsOpen db a b o in
        elim (Bool-cases (ltb (a * hour) horizon || nat_eq (a * hour) current)) [
          | inr done ↦
              subst (λ (x : Outcome name_of fails). IsOpen b x.0)
                (some-injective _ _ (rw (done, create_partitions) at h)) o
          | inl more ↦ elim (Option-cases made.1) [
            | inr (e, bad) ↦
                subst (λ (x : Outcome name_of fails). IsOpen b x.0)
                  (some-injective _ _ (rw (more, create_partitions, bad) at h)) kept
            | inl good ↦ create_partitions-IsOpen fuel current horizon (suc a) b made.0 r kept (
                subst (λ t. create_partitions name_of fails fuel current horizon t made.0 ≡ some r)
                  (omega arith) (rw (more, create_partitions, good) at h))
          ]
        ]

    drop_delta_partition-Distinct :
        (db : Database) (name : String)
        → Map.Distinct db.rows
        → Map.Distinct (drop_delta_partition name_of fails db name).0.rows
    unfolding drop_delta_partition drop_table_of
    drop_delta_partition-Distinct db name d = ground (arith, Map.delete-Distinct name db.rows d)

    drop_partitions-Distinct :
        (db : Database) (names : List String)
        → Map.Distinct db.rows
        → Map.Distinct (drop_partitions name_of fails db names).0.rows
    unfolding drop_partitions
    drop_partitions-Distinct db [] d = d
    drop_partitions-Distinct db (name ∷ names) d =
        let gone = drop_delta_partition name_of fails db name in
        let kept = drop_delta_partition-Distinct db name d in
        elim (Option-cases gone.1) [
          | inr (e, bad) ↦ rw (bad, drop_partitions) kept
          | inl good ↦ rw (good, drop_partitions) (drop_partitions-Distinct gone.0 names kept)
        ]

    -- The hour is not behind the cutoff, so its row is not among the expired ones.
    not_expired :
        (db : Database) (cutoff b : ℕ)
        → cutoff < b * hour + hour
        → IsOpen b db
        → contains (name_of (b * hour)) (Map.keys (expired name_of fails cutoff db)) ≡ false
    unfolding expired
    not_expired db cutoff b l o = elim o.row [
      | inl missing ↦
          keys-sort _ (name_of (b * hour))
            (keep (λ (x : String × Range). leb x.1.range_end cutoff) db.rows)
          ∙ keys-keep _ (name_of (b * hour)) db.rows missing
      | inr there ↦
          expired_lem name_of fails cutoff (name_of (b * hour)) (range_of b) db o.distinct there l
    ]

    drop_expired-IsOpen :
        (cutoff b : ℕ) (r : Outcome name_of fails)
        → cutoff < b * hour + hour
        → IsOpen b r.0
        → IsOpen b (drop_expired name_of fails cutoff r).0
    unfolding drop_expired
    drop_expired-IsOpen cutoff b (db, some e) l o = o
    drop_expired-IsOpen cutoff b (db, none) l o = elim (Bool-cases (fails list_expired)) [
      | inl bad ↦ rw (bad, drop_expired) o
      | inr good ↦
          let names = Map.keys (expired name_of fails cutoff db) in
          let kept =
            drop_partitions-keeps name_of fails db names (name_of (b * hour))
              (not_expired db cutoff b l o) in
          let still : IsOpen b (drop_partitions name_of fails db names).0 = record {
            distinct = drop_partitions-Distinct db names o.distinct;
            free = λ e. o.free (sym kept.1 ∙ e);
            row = elim o.row [ inl p ↦ inl (kept.0 ∙ p) | inr p ↦ inr (kept.0 ∙ p) ];
          } in
          rw (good, drop_expired) still
    ]

    pub maintain_at-IsOpen :
        (cfg : DeltaPartitionConfig) (db : Database) (now b : ℕ) (r : Outcome name_of fails)
        → now - cfg.retention < b * hour + hour
        → IsOpen b db
        → maintain_at name_of fails cfg db now ≡ some r
        → IsOpen b r.0
    unfolding maintain_at
    maintain_at-IsOpen cfg db now b r l o h = elim (Bool-cases (fails current_schema)) [
      | inl bad ↦
          subst (λ (x : Outcome name_of fails). IsOpen b x.0)
            (some-injective _ _ (rw (bad, maintain_at) at h)) o
      | inr good ↦
          let t = truncate_hour now in
          let horizon = now + cfg.precreate_horizon in
          let fuel = hours_between name_of fails t horizon in
          elim (Option-cases (create_partitions name_of fails fuel t horizon t db)) [
            | inl out ↦ absurd (cc (rw (good, maintain_at, out) at h))
            | inr (made, e) ↦
                subst (λ (x : Outcome name_of fails). IsOpen b x.0)
                  (some-injective _ _ (rw (good, maintain_at, e) at h))
                  (drop_expired-IsOpen (now - cfg.retention) b made l (
                    create_partitions-IsOpen fuel t horizon (now / hour) b db made o (
                      subst (λ u. create_partitions name_of fails fuel t horizon u db ≡ some made)
                        (truncate_hour_lem now) e)))
          ]
    ]

  pub empty-IsOpen : (b : ℕ) → IsOpen b (record { tables = []; rows = [] })
  unfolding Map.lookup
  empty-IsOpen b = record { distinct = tt; free = λ e. absurd (cc e); row = inl refl }
