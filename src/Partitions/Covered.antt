-- ===== src/Partitions/Covered.antt =====
-- A pass that the database refuses nothing leaves a partition for every hour up to the horizon.
use market_data_backend.Prelude.{
  sym, ℕ, zero, suc, ◌+◌, ◌*◌, ◌≤◌, ◌<◌, String, Bool, true, false, List, none, some, ltb, nat_eq,
  ◌||◌, String_eq, ◌==◌, ◌≡◌, refl, ap, ◌∙◌, subst, ◌⊎◌, inl, inr, arith, Bool-cases, Option-cases,
  eq_test_iff, eq_test_self,
}
use market_data_backend.Prelude.Map
use mathlib.Core.Option.{some-injective}
use market_data_backend.Partitions.{
  Range, Database, DbCall, hour, truncate_hour, Outcome, create_if_missing, create_delta_partition,
  create_partitions,
}

abbrev pub range_of : ℕ → Range
range_of a = record { range_start = a * hour; range_end = a * hour + hour }

now_or_later : (a b : ℕ) → a ≤ b → (a ≡ b) ⊎ (suc a ≤ b)
now_or_later a b h = ground arith

pub truncate_hour-id : (a : ℕ) → truncate_hour (a * hour) ≡ a * hour
unfolding truncate_hour
truncate_hour-id a = omega arith

-- No detached table has the name, which `CREATE TABLE IF NOT EXISTS` would leave as it is.
abbrev pub IsFree : String → List (String × Bool) → Type 0
IsFree name tables = Map.lookup name tables ≡ some false → ⊥

module _ (name_of : ℕ → String) (fails : DbCall → Bool) where
  -- The partition of the hour `a`: its row, and its table, which is attached.
  pub record HasPartition (a : ℕ) (db : Database) : Type 0 where
    pub row : Map.lookup (name_of (a * hour)) db.rows ≡ some (range_of a)
    pub table : Map.lookup (name_of (a * hour)) db.tables ≡ some true

  create_delta_partition-done :
      (db : Database) (a : ℕ)
      → let made = create_delta_partition name_of fails db (a * hour) in
        made.1 ≡ none
        → (made.0.rows ≡ Map.insert (name_of (a * hour)) (range_of a) db.rows)
          × (made.0.tables ≡ create_if_missing name_of fails (name_of (a * hour)) db.tables)
  unfolding create_delta_partition
  create_delta_partition-done db a h = ground (arith, truncate_hour-id a)

  created_table :
      (name : String) (tables : List (String × Bool))
      → IsFree name tables
      → Map.lookup name (create_if_missing name_of fails name tables) ≡ some true
  created_table name tables free = elim (Option-cases (Map.lookup name tables)) [
    | inl missing ↦
        rw (missing, create_if_missing)
          (Map.lookup-insert name name true tables ∙ rw (eq_test_self name) refl)
    | inr (true, found) ↦ rw (found, create_if_missing) found
    | inr (false, found) ↦ absurd (free found)
  ]

  -- What another creation leaves at a name.
  lookup-create_if_missing :
      (name k : String) (tables : List (String × Bool))
      → (Map.lookup k (create_if_missing name_of fails name tables) ≡ Map.lookup k tables)
        ⊎ (Map.lookup k (create_if_missing name_of fails name tables) ≡ some true)
  lookup-create_if_missing name k tables = elim (Option-cases (Map.lookup name tables)) [
    | inr (b, found) ↦ inl (rw (found, create_if_missing) refl)
    | inl missing ↦ elim (Bool-cases (name == k)) [
      | inl same ↦
          inr
            (rw (missing, create_if_missing) (Map.lookup-insert k name true tables ∙ rw same refl))
      | inr other ↦
          inl
            (rw (missing, create_if_missing) (Map.lookup-insert k name true tables ∙ rw other refl))
    ]
  ]

  table_stays :
      (name k : String) (tables : List (String × Bool))
      → Map.lookup k tables ≡ some true
      → Map.lookup k (create_if_missing name_of fails name tables) ≡ some true
  table_stays name k tables h = elim (lookup-create_if_missing name k tables) [
    | inl same ↦ same ∙ h
    | inr new ↦ new
  ]

  pub create_if_missing-IsFree :
      (name k : String) (tables : List (String × Bool))
      → IsFree k tables
      → IsFree k (create_if_missing name_of fails name tables)
  create_if_missing-IsFree name k tables free h = elim (lookup-create_if_missing name k tables) [
    | inl same ↦ free (sym same ∙ h)
    | inr new ↦ absurd (cc (new, h))
  ]

  create_delta_partition-HasPartition :
      (db : Database) (a : ℕ)
      → let made = create_delta_partition name_of fails db (a * hour) in
        made.1 ≡ none → IsFree (name_of (a * hour)) db.tables → HasPartition a made.0
  create_delta_partition-HasPartition db a h free =
      let name = name_of (a * hour) in
      let done = create_delta_partition-done db a h in
      record {
        row =
            rw (done.0)
              (Map.lookup-insert name name (range_of a) db.rows ∙ rw (eq_test_self name) refl);
        table = rw (done.1) (created_table name db.tables free);
      }

  module _ (distinct_names : (i j : ℕ) → name_of (i * hour) ≡ name_of (j * hour) → i ≡ j) where
    -- A new partition leaves those of the other hours as they are.
    HasPartition-create_delta_partition :
        (db : Database) (a b : ℕ)
        → let made = create_delta_partition name_of fails db (a * hour) in
          made.1 ≡ none → HasPartition b db → HasPartition b made.0
    HasPartition-create_delta_partition db a b h p =
        let name = name_of (a * hour) in
        let other = name_of (b * hour) in
        let done = create_delta_partition-done db a h in
        record {
          row = rw (done.0) (
              Map.lookup-insert other name (range_of a) db.rows
              ∙ elim (Bool-cases (name == other)) [
                | inl same ↦ rw (same, distinct_names a b ((eq_test_iff name other).0 same)) refl
                | inr differ ↦ rw differ (p.row)
              ]);
          table = rw (done.1) (table_stays name other db.tables p.table);
        }

    -- The hours that are left, with a free name, or that were there.
    abbrev pub IsDue : (c a b horizon : ℕ) → Database → Type 0
    IsDue c a b horizon db =
        HasPartition b db
        ⊎ ((a ≤ b) × ((b * hour < horizon) ⊎ (b ≡ c)) × IsFree (name_of (b * hour)) db.tables)

    IsDue-next :
        (c a b horizon : ℕ) (db : Database)
        → (create_delta_partition name_of fails db (a * hour)).1 ≡ none
        → IsDue c a b horizon db
        → IsDue c (suc a) b horizon (create_delta_partition name_of fails db (a * hour)).0
    IsDue-next c a b horizon db good (inl p) =
        inl (HasPartition-create_delta_partition db a b good p)
    IsDue-next c a b horizon db good (inr (le, r, free)) = elim (now_or_later a b le) [
      | inl now ↦ inl (
          subst (λ x. HasPartition x (create_delta_partition name_of fails db (a * hour)).0) now
            (create_delta_partition-HasPartition db a good
              (subst (λ x. IsFree (name_of (x * hour)) db.tables) (sym now) free)))
      | inr later ↦ inr (
        later,
        r,
        subst (IsFree (name_of (b * hour))) (sym (create_delta_partition-done db a good).1)
            (create_if_missing-IsFree (name_of (a * hour)) (name_of (b * hour)) db.tables free),
      )
    ]

    nothing_due :
        (c a b horizon : ℕ)
        → c ≤ a
        → (ltb (a * hour) horizon || nat_eq (a * hour) (c * hour)) ≡ false
        → a ≤ b
        → (b * hour < horizon) ⊎ (b ≡ c)
        → ⊥
    nothing_due c a b horizon order done le r = ground arith

    -- After the loop there is a partition for each hour that it went through, or that was there.
    pub create_partitions-HasPartition :
        (fuel c a b horizon : ℕ) (db after : Database)
        → c ≤ a
        → create_partitions name_of fails fuel (c * hour) horizon (a * hour) db ≡ some (after, none)
        → IsDue c a b horizon db
        → HasPartition b after
    unfolding create_partitions
    create_partitions-HasPartition zero c a b horizon db after order h p = absurd (cc h)
    create_partitions-HasPartition (suc fuel) c a b horizon db after order h p =
        elim (Bool-cases (ltb (a * hour) horizon || nat_eq (a * hour) (c * hour))) [
          | inr done ↦
              let same : Path (Outcome name_of fails) (db, none) (after, none) =
                some-injective _ _ (rw (done, create_partitions) at h) in
              elim p [
                | inl there ↦
                    subst (HasPartition b) (ap (λ (r : Outcome name_of fails). r.0) same) there
                | inr (le, r, free) ↦ absurd (nothing_due c a b horizon order done le r)
              ]
          | inl more ↦
              let made = create_delta_partition name_of fails db (a * hour) in
              elim (Option-cases made.1) [
                | inr (e, bad) ↦ absurd (
                    cc (
                      bad,
                      ap (λ (r : Outcome name_of fails). r.1)
                          (some-injective _ _ (rw (more, create_partitions, bad) at h)),
                    ))
                | inl good ↦
                    create_partitions-HasPartition fuel c (suc a) b horizon made.0 after
                      (omega arith)
                      (subst
                        (λ t.
                          create_partitions name_of fails fuel (c * hour) horizon t made.0
                          ≡ some (after, none))
                        (omega arith) (rw (more, create_partitions, good) at h))
                      (IsDue-next c a b horizon db good p)
              ]
        ]
