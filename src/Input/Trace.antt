-- ===== src/Input/Trace.antt =====
-- Traces of an input worker: what justifies a commit, and what settles a message.
pub mod Grow
pub mod Flush
pub mod Prepare
pub mod Steps
pub mod Consume
use market_data_backend.Prelude.{ℕ, List, [], ◌∷◌, ◌≡◌, refl, ◌⊎◌, inl, inr}
use market_data_backend.Prelude.Int.{ℤ}
use market_data_backend.Input.Types.{
  Message, PendingRecord, FactBatch, Effect, wrote, poisoned, committed, notified,
}
use market_data_backend.Input.Flush.{trades_of, klines_of, deltas_of}

-- The database holds this offset: as the progress of a batch, or as a poison record.
abbrev pub Backs : ℕ → ℤ → Effect → Type 0
Backs p o (wrote batch rs) =
    (batch.progress.kafka_partition ≡ p) × (batch.progress.durable_offset ≡ o)
Backs p o (poisoned r) = (r.partition ≡ p) × (r.offset ≡ o)
Backs p o (committed q x) = ⊥
Backs p o (notified d) = ⊥

abbrev pub Backed : ℕ → ℤ → List Effect → Type 0
Backed p o [] = ⊥
Backed p o (effect ∷ log) = Backs p o effect ⊎ Backed p o log

-- A batch holds the facts of its records, all of them and in their order.
pub record IsBatch (batch : FactBatch) (rs : List PendingRecord) : Type 0 where
  pub all_trades : batch.trades ≡ trades_of rs
  pub all_klines : batch.klines ≡ klines_of rs
  pub all_deltas : batch.order_book_deltas ≡ deltas_of rs

-- What an effect needs of the effects before it.
abbrev pub Allowed : Effect → List Effect → Type 0
Allowed (wrote batch rs) log = IsBatch batch rs
Allowed (poisoned r) log = Unit
Allowed (committed p o) log = Backed p o log
Allowed (notified d) log = Unit

-- Each commit follows a write of the very offset, and each batch holds all facts of its records.
abbrev pub IsJustified : List Effect → Type 0
IsJustified [] = Unit
IsJustified (effect ∷ log) = Allowed effect log × IsJustified log

abbrev pub InRecords : Message → List PendingRecord → Type 0
InRecords m [] = ⊥
InRecords m (r ∷ rs) = (r.msg ≡ m) ⊎ InRecords m rs

abbrev pub Settles : Message → Effect → Type 0
Settles m (wrote batch rs) = InRecords m rs
Settles m (poisoned r) = (r.partition ≡ m.partition) × (r.offset ≡ m.offset)
Settles m (committed p o) = ⊥
Settles m (notified d) = ⊥

-- The message went into a batch in the database, or into a poison record.
abbrev pub Settled : Message → List Effect → Type 0
Settled m [] = ⊥
Settled m (effect ∷ log) = Settles m effect ⊎ Settled m log
