-- ===== src/Partitions.antt =====
-- internal/storage/partitions.go: the hourly partitions of the order book deltas. Instants and
-- durations are counted in nanoseconds, instants from Go's zero time, which is a full hour; no
-- retention is so long that it reaches back before it. A call of the database that fails changes
-- nothing.
pub mod Created
pub mod Kept
pub mod Covered
pub mod Maintained
pub mod Open
pub mod Accepted
pub mod Repeated
use market_data_backend.Prelude.{
  ℕ, zero, suc, ◌+◌, ◌-◌, ◌/◌, ◌%◌, String, Bool, true, false, List, [], ◌∷◌, Option, none, some,
  ltb, leb, nat_eq, keep, ◌&&◌, ◌||◌, if◌then◌else◌, String_eq, ◌==◌,
}
use market_data_backend.Prelude.Map
use market_data_backend.Prelude.Sort.{sort}

pub record Range : Type 0 where
  pub range_start : ℕ
  pub range_end : ℕ

-- The child tables with the word whether they are attached, and the rows of
-- `orderbook_delta_partitions`.
pub record Database : Type 0 where
  pub tables : List (String × Bool)
  pub rows : List (String × Range)

-- The statements that a pass sends; the text is the name of the partition.
pub data DbCall : Type 0 where
  current_schema : DbCall
  create_table : String → DbCall
  record_row : String → DbCall
  list_expired : DbCall
  inspect : String → DbCall
  detach : String → DbCall
  drop_table : String → DbCall
  forget : String → DbCall

pub record DeltaPartitionConfig : Type 0 where
  pub retention : ℕ
  pub precreate_horizon : ℕ

abbrev pub hour : ℕ
hour = 3_600_000_000_000

-- `Truncate(time.Hour)`.
unfoldable pub truncate_hour : ℕ → ℕ
truncate_hour t = t - t % hour

-- `name_of` stands for `"orderbook_deltas_" + start.Format("20060102_15")`; `fails` tells which
-- statements the database refuses. A pass that is refused a statement returns it.
module _ (name_of : ℕ → String) (fails : DbCall → Bool) where
  abbrev pub Outcome : Type 0
  Outcome = Database × Option DbCall

  abbrev create_if_missing : String → List (String × Bool) → List (String × Bool)
  create_if_missing name tables = elim (Map.lookup name tables) [
    | some attached ↦ tables
    | none ↦ Map.insert name true tables
  ]

  unfoldable pub create_delta_partition : Database → ℕ → Outcome
  unfolding truncate_hour
  create_delta_partition db start =
      let from = truncate_hour start in
      let name = name_of from in
      let created = record db { tables = create_if_missing name db.tables } in
      if fails (create_table name)
      then (db, some (create_table name))
      else if fails (record_row name)
      then (created, some (record_row name))
      else (
        record created {
          rows =
              Map.insert name (record { range_start = from; range_end = from + hour }) created.rows;
        },
        none,
      )

  abbrev is_attached : String → List (String × Bool) → Bool
  is_attached name tables = elim (Map.lookup name tables) [
    | none ↦ false
    | some attached ↦ attached
  ]

  -- Once it is known whether the table is attached.
  unfoldable pub drop_table_of : Database → String → Outcome
  drop_table_of db name =
      let dropped = record db { tables = Map.delete name db.tables } in
      if fails (drop_table name)
      then (db, some (drop_table name))
      else if fails (forget name)
      then (dropped, some (forget name))
      else (record dropped { rows = Map.delete name db.rows }, none)

  unfoldable pub drop_delta_partition : Database → String → Outcome
  unfolding drop_table_of
  drop_delta_partition db name =
      if fails (inspect name)
      then (db, some (inspect name))
      else if is_attached name db.tables
      then (if fails (detach name)
          then (db, some (detach name))
          else drop_table_of (record db { tables = Map.insert name false db.tables }) name)
      else drop_table_of db name

  -- The loop over the hours; `none`: out of fuel.
  unfoldable pub create_partitions : (fuel current horizon start : ℕ) → Database → Option Outcome
  unfolding create_delta_partition
  create_partitions zero current horizon start db = none
  create_partitions (suc fuel) current horizon start db =
      elim (ltb start horizon || nat_eq start current) [
        | false ↦ some (db, none)
        | true ↦
            let made = create_delta_partition db start in
            elim made.1 [
              | some e ↦ some made
              | none ↦ create_partitions fuel current horizon (start + hour) made.0
            ]
      ]

  -- The rows that the query for expired partitions returns.
  unfoldable pub expired : ℕ → Database → List (String × Range)
  expired cutoff db =
      sort (λ (a : String × Range) b. leb a.1.range_end b.1.range_end)
        (keep (λ (r : String × Range). leb r.1.range_end cutoff) db.rows)

  -- The loop over the expired partitions.
  unfoldable pub drop_partitions : Database → List String → Outcome
  unfolding drop_delta_partition
  drop_partitions db [] = (db, none)
  drop_partitions db (name ∷ names) =
      let gone = drop_delta_partition db name in
      elim gone.1 [ some e ↦ gone | none ↦ drop_partitions gone.0 names ]

  -- What follows the loop over the hours.
  unfoldable pub drop_expired : ℕ → Outcome → Outcome
  unfolding expired drop_partitions
  drop_expired cutoff made = elim made.1 [
    | some e ↦ made
    | none ↦
        if fails list_expired
        then (made.0, some list_expired)
        else drop_partitions made.0 (Map.keys (expired cutoff made.0))
  ]

  -- An hour more than the hours up to the horizon, and one round to see the end.
  abbrev pub hours_between : ℕ → ℕ → ℕ
  hours_between current horizon = suc (suc ((horizon - current) / hour))

  unfoldable pub maintain_at : DeltaPartitionConfig → Database → ℕ → Option Outcome
  unfolding create_partitions drop_expired truncate_hour
  maintain_at cfg db now =
      let current = truncate_hour now in
      let horizon = now + cfg.precreate_horizon in
      if fails current_schema
      then some (db, some current_schema)
      else elim (create_partitions (hours_between current horizon) current horizon current db) [
        | none ↦ none
        | some made ↦ some (drop_expired (now - cfg.retention) made)
      ]

-- A tick of `Run`, of any node, whose pass gets the lock and reads the time: the database time, and
-- which statements are refused in the pass.
pub record Tick : Type 0 where
  pub now : ℕ
  pub fails : DbCall → Bool

-- The passes of `Run`, each on what the one before left: a failed pass is logged, and the next tick
-- starts another. `none`: out of fuel.
unfoldable pub run : (ℕ → String) → DeltaPartitionConfig → Database → List Tick → Option Database
unfolding maintain_at
run name_of cfg db [] = some db
run name_of cfg db (tick ∷ ticks) = elim (maintain_at name_of tick.fails cfg db tick.now) [
  | none ↦ none
  | some r ↦ run name_of cfg r.0 ticks
]
