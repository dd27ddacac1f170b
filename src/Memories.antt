-- ===== src/Memories.antt =====
-- The memories of app/routers/generic_resources.py: texts under paths in a memory store, with a
-- version for every change.
pub mod Paths
pub mod Data
pub mod Calls
pub mod Changes
pub mod View
mod Tests
