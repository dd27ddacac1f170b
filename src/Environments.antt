-- ===== src/Environments.antt =====
-- app/routers/environments.py: the workers' side of the queue.
pub mod Config
pub mod Table
pub mod Work
pub mod Poll
mod Tests
