-- ===== src/Partitions/Repeated.antt =====
-- internal/storage/partitions.go: passes of `Run` that follow each other.
use mathlib.Core.Option.{some-injective}
use market_data_backend.Prelude.{
  refl, ap, ◌∙◌, false, ℕ, ◌+◌, ◌*◌, ◌/◌, ◌≤◌, ◌<◌, String, Bool, List, [], ◌∷◌, none, some,
  String_eq, ◌≡◌, subst, ◌⊎◌, inl, inr, arith, Option-cases, All,
}
use market_data_backend.Partitions.{
  Database, DbCall, DeltaPartitionConfig, hour, maintain_at, Tick, run,
}
use market_data_backend.Partitions.Covered.{HasPartition}
use market_data_backend.Partitions.Maintained.{maintain_at-HasPartition}
use market_data_backend.Partitions.Created.{maintain_at-Ends}
use market_data_backend.Partitions.Accepted.{maintain_at-accepted}
use market_data_backend.Partitions.Open.{IsOpen, empty-IsOpen, maintain_at-IsOpen}

module _ (name_of : ℕ → String)
    (distinct_names : (i j : ℕ) → name_of (i * hour) ≡ name_of (j * hour) → i ≡ j) where
  run-IsOpen :
      (cfg : DeltaPartitionConfig) (db after : Database) (ticks : List Tick) (b : ℕ)
      → All (λ (tick : Tick). tick.now < b * hour + hour) ticks
      → IsOpen name_of distinct_names b db
      → run name_of cfg db ticks ≡ some after
      → IsOpen name_of distinct_names b after
  unfolding run
  run-IsOpen cfg db after [] b early o h =
      subst (IsOpen name_of distinct_names b) (some-injective _ _ h) o
  run-IsOpen cfg db after (tick ∷ ticks) b early o h =
      elim (Option-cases (maintain_at name_of tick.fails cfg db tick.now)) [
        | inl out ↦ absurd (cc (rw (run, out) at h))
        | inr (r, e) ↦
            run-IsOpen cfg r.0 after ticks b early.1
              (maintain_at-IsOpen name_of distinct_names tick.fails cfg db tick.now b r
                (omega (arith, early.0)) o e)
              (rw (run, e) at h)
      ]

  run-Ends :
      (cfg : DeltaPartitionConfig) (db : Database) (ticks : List Tick)
      → (after : Database) × (run name_of cfg db ticks ≡ some after)
  unfolding run
  run-Ends cfg db [] = (db, refl)
  run-Ends cfg db (tick ∷ ticks) =
      let one = maintain_at-Ends name_of tick.fails cfg db tick.now in
      let rest = run-Ends cfg one.0.0 ticks in (rest.0, rw (one.1, run) rest.1)

  -- From a database without partitions, any passes end, refused statements or not; and a pass that
  -- follows them, and that the database refuses nothing, ends without an error and leaves a
  -- partition, its row and its attached table, for the hour of its instant `now` and for each hour
  -- after it that begins before the horizon, where no pass before it was later than the end of that
  -- hour, and the names of different hours are different.
  pub run-HasPartition :
      (cfg : DeltaPartitionConfig) (ticks : List Tick) (fails : DbCall → Bool) (now b : ℕ)
      → ((call : DbCall) → fails call ≡ false)
      → All (λ (tick : Tick). tick.now < b * hour + hour) ticks
      → now / hour ≤ b
      → (b * hour < now + cfg.precreate_horizon) ⊎ (b ≡ now / hour)
      → (db : Database) × (after : Database) × (run name_of cfg
            (record { tables = []; rows = [] })
            ticks
          ≡ some db)
        × (maintain_at name_of fails cfg db now ≡ some (after, none))
        × HasPartition name_of fails b after
  run-HasPartition cfg ticks fails now b accepts early le due =
      let before = run-Ends cfg (record { tables = []; rows = [] }) ticks in
      let last = maintain_at-Ends name_of fails cfg before.0 now in
      let clean : maintain_at name_of fails cfg before.0 now ≡ some (last.0.0, none) =
        last.1
        ∙ ap (λ e. some (last.0.0, e))
            (maintain_at-accepted name_of fails accepts cfg before.0 now last.0 last.1) in
      let ready =
        run-IsOpen cfg (record { tables = []; rows = [] }) before.0 ticks b early
          (empty-IsOpen name_of distinct_names b) before.1 in
      (
        before.0,
        last.0.0,
        before.1,
        clean,
        maintain_at-HasPartition name_of fails cfg before.0 last.0.0 now b distinct_names
            ready.distinct ready.free clean le due,
      )
