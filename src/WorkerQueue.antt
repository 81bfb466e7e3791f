-- ===== src/WorkerQueue.antt =====
-- resotocore/core/worker_task_queue.py: the queue that hands tasks to attached workers.
pub mod Data
pub mod Select
pub mod Ops
pub mod Subscribed
pub mod Run
pub mod Futures
pub mod Deadlines
pub mod Detach
pub mod Exclusive
pub mod Counters
pub mod WellFormed
pub mod Examples
pub mod Answers
pub mod NoLoss
