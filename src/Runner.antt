-- ===== src/Runner.antt =====
-- app/runtime/runner.py: the turn of a session.
pub mod Failures
pub mod Context
pub mod Outcome
pub mod Turn
pub mod Finish
pub mod Retry
pub mod Run
pub mod Tests
