-- ===== src/Input.antt =====
-- internal/runtime/input_worker.go: the consumer of one input stream. Config holds the batch
-- settings, Types the messages and the state, Status what the worker reports, Prepare the decision
-- on one message, Flush the write of a batch, Consume the loop; the others prove what they do.
pub mod Config
pub mod Types
pub mod Status
pub mod Prepare
pub mod Flush
pub mod Consume
pub mod Trace
