-- ===== src/Queue.antt =====
-- src/app/adapters/queue: the relay from the outbox to the job queue, and the job that it queues.
pub mod Relay
pub mod Worker
