-- ===== src/Worker.antt =====
-- internal/runtime/worker.go: the worker of one market group.
pub mod State
pub mod Life
