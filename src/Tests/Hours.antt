-- ===== src/Tests/Hours.antt =====
-- Partitions named by their hour in strokes.
use Prim.Native.String.{◌++◌}
use text.Mathlib.TextLemmas.{nil-append, cons-append}
use market_data_backend.Prelude.{
  ℕ, zero, suc, ◌+◌, ◌*◌, ◌/◌, String, Bool, true, false, List, [], ◌∷◌, none, some, ◌≡◌, refl, sym,
  ap, ◌∙◌, arith, inl, String_eq,
}
use market_data_backend.Prelude.Map
use market_data_backend.Prelude.Sort
use market_data_backend.Partitions.{
  Range, Database, DbCall, DeltaPartitionConfig, hour, Outcome, maintain_at, drop_expired, Tick,
  run,
}
use market_data_backend.Partitions.Created.{maintain_at-Ends}
use market_data_backend.Partitions.Kept.{drop_expired-keeps}
use market_data_backend.Partitions.Covered.{HasPartition}
use market_data_backend.Partitions.Maintained.{maintain_at-HasPartition}
use market_data_backend.Partitions.Repeated.{run-HasPartition}

abbrev strokes : ℕ → String
strokes zero = ""
strokes (suc n) = "x" ++ strokes n

abbrev count : String → ℕ
count String.[] = 0
count (String.◌∷◌ c s) = suc (count s)

count-append : (s t : String) → count (s ++ t) ≡ count s + count t
count-append String.[] t = rw nil-append (omega arith)
count-append (String.◌∷◌ c s) t = rw cons-append (omega (arith, count-append s t))

count-strokes : (n : ℕ) → count (strokes n) ≡ n
count-strokes zero = refl
count-strokes (suc n) = count-append "x" (strokes n) ∙ omega (arith, count-strokes n)

abbrev name_of : ℕ → String
name_of t = strokes (t / hour)

names : (i j : ℕ) → name_of (i * hour) ≡ name_of (j * hour) → i ≡ j
names i j h =
    let e = sym (count-strokes (i * hour / hour)) ∙ ap count h ∙ count-strokes (j * hour / hour) in
    omega (arith, e)

-- The database refuses nothing.
abbrev fails : DbCall → Bool
fails call = false

abbrev settings : DeltaPartitionConfig
settings = record { retention = 7_200_000_000_000; precreate_horizon = 3_600_000_000_000 }

-- The hour that ended four hours ago.
abbrev old : Database
old = record {
  tables = ("", true) ∷ [];
  rows = ("", record { range_start = 0; range_end = hour }) ∷ [];
}

-- Half an hour into the sixth hour.
abbrev now : ℕ
now = 19_800_000_000_000

abbrev after : Database
after = record {
  tables = ("xxxxx", true) ∷ ("xxxxxx", true) ∷ [];
  rows =
      ("xxxxx", record { range_start = 18_000_000_000_000; range_end = 21_600_000_000_000 })
      ∷ ("xxxxxx", record { range_start = 21_600_000_000_000; range_end = 25_200_000_000_000 })
      ∷ [];
}

maintained : maintain_at name_of fails settings old now ≡ some (after, none)
unfolding maintain_at Sort.sort Map.insert Map.lookup Map.delete
maintained = refl

maintain_at-Ends_example :
    (r : Outcome name_of fails) × (maintain_at name_of fails settings old now ≡ some r)
maintain_at-Ends_example = maintain_at-Ends name_of fails settings old now

maintain_at-HasPartition_example : HasPartition name_of fails 6 after
unfolding Map.lookup
maintain_at-HasPartition_example =
    maintain_at-HasPartition name_of fails settings old after now 6 names (refl, tt) (λ e. cc e)
      maintained (omega arith) (inl (omega arith))

drop_expired-keeps_example :
    let kept = (drop_expired name_of fails 12_600_000_000_000 (after, none)).0 in
    (Map.lookup "xxxxx" kept.rows
      ≡ some (record { range_start = 18_000_000_000_000; range_end = 21_600_000_000_000 }))
    × (Map.lookup "xxxxx" kept.tables ≡ Map.lookup "xxxxx" after.tables)
unfolding Map.lookup
drop_expired-keeps_example =
    drop_expired-keeps name_of fails after 12_600_000_000_000 "xxxxx"
      (record { range_start = 18_000_000_000_000; range_end = 21_600_000_000_000 })
      (refl, (refl, tt)) refl (omega arith)

-- No table may be dropped.
abbrev no_drop : DbCall → Bool
no_drop (DbCall.drop_table name) = true
no_drop call = false

-- The second pass detaches the table of an expired hour and may not drop it.
abbrev passes : List Tick
passes =
    record { now = 9_000_000_000_000; fails = fails }
    ∷ record { now = 19_000_000_000_000; fails = no_drop }
    ∷ []

abbrev row_at : ℕ → Range
row_at n = record { range_start = n * hour; range_end = n * hour + hour }

abbrev left : Database
left = record {
  tables = ("xx", false) ∷ ("xxx", true) ∷ ("xxxxx", true) ∷ ("xxxxxx", true) ∷ [];
  rows = ("xx", row_at 2) ∷ ("xxx", row_at 3) ∷ ("xxxxx", row_at 5) ∷ ("xxxxxx", row_at 6) ∷ [];
}

abbrev swept : Database
swept = record {
  tables = ("xxx", true) ∷ ("xxxxx", true) ∷ ("xxxxxx", true) ∷ [];
  rows = ("xxx", row_at 3) ∷ ("xxxxx", row_at 5) ∷ ("xxxxxx", row_at 6) ∷ [];
}

passed : run name_of settings (record { tables = []; rows = [] }) passes ≡ some left
unfolding run maintain_at Sort.sort Map.insert Map.lookup Map.delete
passed = refl

maintained_again : maintain_at name_of fails settings left now ≡ some (swept, none)
unfolding maintain_at Sort.sort Map.insert Map.lookup Map.delete
maintained_again = refl

run-HasPartition_example :
    (db : Database) × (later : Database) × (run name_of settings
        (record { tables = []; rows = [] })
        passes
      ≡ some db)
    × (maintain_at name_of fails settings db now ≡ some (later, none))
    × HasPartition name_of fails 6 later
run-HasPartition_example =
    run-HasPartition name_of names settings passes fails now 6 (λ call. refl)
      (omega arith, (omega arith, tt)) (omega arith) (inl (omega arith))
