-- ===== src/Lib.antt =====
-- Market data backend: a model in cubical type theory of the Go services of this repository, with
-- the theorems that say what they keep and what they never do.
--
-- The program. A control API writes market groups and their inputs to PostgreSQL. Runtime nodes
-- read them, take a lease on each group that they run, and start one worker per group. A group
-- worker starts one input worker per Kafka input; an input worker fetches messages, decodes and
-- checks them, writes them to the database in batches and commits the offsets. Deltas that were
-- written are told to the order book of the group, which a reference snapshot initialises and from
-- which snapshots are generated.
--
-- The files.
--   Prelude       numbers, Go's int64, lists, maps, sorting, texts, results, equality as an interface.
--   Model         internal/model/model.go (fact rows, groups, inputs, leases, statuses) and
--                 internal/model/streamkey.go (Model.StreamKey).
--   Numeric       `compareNumeric` of internal/runtime/decode.go and the prices of the order book.
--   OrderBook     internal/runtime/orderbook_state.go: Levels is one side of the book, Continuity is
--                 `checkSequenceMatch`, Export is `exportLevels` and `validateBidAskOrder`, State is
--                 `orderBookState` with `onDeltaApplied` of internal/runtime/worker.go; Priced is about
--                 its prices.
--   Sequence      internal/runtime/sequence.go: the gate in front of the batch of deltas.
--   Reconcile     internal/runtime/reconcile.go: which groups a node starts and stops.
--   Lease         the statements of the three lease calls in internal/metadata/postgres.go, and
--                 Lease.Cluster, the interleavings of the calls of several nodes.
--   Worker        internal/runtime/worker.go: the states of a group worker (Worker.State) and its life,
--                 `run`, `leaseLoop`, `Stop` and `finish` as a step relation (Worker.Life).
--   Node          internal/runtime/node.go: the settings of a node with their defaults; Node.Rounds, the
--                 rounds of `reconcileLoop` with `pruneDeadWorkers`, `stopWorker`, `tryStartWorker` and
--                 `shutdown`. Leases, Stop, Start and Trace read the log of what a node did; Size, Within,
--                 Candidates and Capacity are about the number and the weight of its workers.
--   Snapshot      internal/runtime/snapshot_input_worker.go and `snapshotReceiveLoop` of
--                 internal/runtime/worker.go as one step relation: Order is about the
--                 commits, Blocked about a snapshot that is refused.
--   Config        internal/config/config.go: the settings, their defaults and their readers; Validate
--                 is `Validate`, Load is `Load`; Yaml is internal/config/yaml.go and `LoadFile`; Valid
--                 and Used say what a loaded configuration is good for.
--   Partitions    internal/storage/partitions.go: `maintainAt` over the tables and the rows of
--                 `orderbook_delta_partitions`; Created, Kept, Covered, Maintained, Open, Accepted and
--                 Repeated are about the loop, the drops, the hours that are covered, a whole pass,
--                 what a pass does about an hour, the passes that are refused nothing, and those of
--                 `Run`.
--   Input         internal/runtime/input_worker.go: Config and Status are the settings and the status,
--                 Prepare is `ensureProgress` and `prepare`, Flush is `flushBatch`, Consume is the
--                 loop `consume`; Trace reads the trace of effects.
--   Decode        internal/runtime/decode.go, kline_decode.go, orderbook_decode.go and
--                 orderbook_snapshot_decode.go: validation and mapping of decoded messages.
--   Metrics       internal/observability/metrics.go: the histogram; Cumulative is about its lines.
--   Tests         concrete inputs.
--
-- State and operations. A struct is a record with the fields of the source in snake case; a method
-- takes the record and returns the new one with its result. A lock makes a method one step. A Go map
-- is an association list. A call that leaves the program is an argument: `Round` and `Answers` carry
-- what the broker and the database answer in one round of `consume`, and the field `log` of an input
-- worker lists what succeeded, the newest first. `NodeAnswers` carries what a round of a node meets.
-- The two goroutines of the reference snapshots, and the goroutine of a worker beside the callers of
-- `Stop`, are a relation `Step`: each constructor is what one of them does without the other between,
-- in any order.
--
-- Parameters. `BigFloat` is big.Float of Go's library: a parse that may fail, and a total order. A
-- message decoder is a function from bytes to a decoded message or an error: encoding/json with the
-- lenient field types. `Builders` are the decoders as the input worker sees them. `has_group` is the
-- foreign key of the leases. `Parsers` are strconv and time.ParseDuration; `YamlLibrary` is
-- strconv.Itoa, os.Expand and the decoder of yaml.v3. `Float64` is
-- float64 with its order and its sum. `name_of` and `fails` of Partitions are the
-- format of a partition's name and the statements that the database refuses.
--
-- Bounds. An int64 that the source adds to wraps around (Prelude.Int.wrap64). Offsets, times and
-- durations are integers; a time counts from Go's zero time. Loops over retries end with the list of
-- the answers, where the context is done. Two definitions run on fuel: the decimal printer of an
-- index (Prelude.Text.show_from), whose fuel is the number plus one, more than its digits, and the
-- loop over the hours of a maintenance pass (Partitions.create_partitions), whose fuel is the number
-- of hours up to the horizon plus two, one for the current hour and one to see the end. The buffer
-- of the order book has its cap of 10000 deltas as a field.
--
-- Left out. The deletion of a group, whose cascade removes its lease; logs, counters and gauges, waiting times and the goroutines that report statuses and heartbeats; SQL
-- other than that of the leases and of the partitions; the HTTP API, the .env file, migrations, the
-- Kafka client; the loop that generates snapshots, the writes of fact batches and the input manager,
-- which come next.
pub mod Prelude
pub mod Model
pub mod Numeric
pub mod OrderBook
pub mod Sequence
pub mod Reconcile
pub mod Lease
pub mod Worker
pub mod Snapshot
pub mod Node
pub mod Config
pub mod Partitions
pub mod Metrics
pub mod Input
pub mod Decode
mod Tests
