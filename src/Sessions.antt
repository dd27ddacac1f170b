-- ===== src/Sessions.antt =====
-- Sessions: the queries on their tables, and the handlers of app/routers/sessions.py.
pub mod Store
pub mod Events
pub mod Actions
pub mod Handlers
pub mod Live
mod Tests
