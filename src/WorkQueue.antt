-- ===== src/WorkQueue.antt =====
-- app/runtime/work_queue.py: the queue of session runs, kept as resources of type environment_work.
pub mod Defs
pub mod Execute
pub mod Lease
pub mod Enqueue
pub mod Finish
pub mod Next
pub mod Ownership
mod Tests
