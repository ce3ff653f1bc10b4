-- ===== src/Queue.antt =====
-- The job queue on Redis (core/queue/queue.ts) and its worker (core/queue/worker.ts).
pub mod Types
pub mod Ops
pub mod Worker
pub mod Retry
pub mod Dlq
pub mod Order
