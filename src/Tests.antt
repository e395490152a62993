-- ===== src/Tests.antt =====
-- Witnesses: each property applied at concrete inputs, beside runs of the code on them.
mod Samples
mod StreamKeys
mod Sequences
mod Inputs
mod Snapshots
mod Nodes
mod Decoders
mod Leases
mod Plans
mod Books
mod Settings
mod Deliveries
mod Hours
mod Lives
mod Lines
