-- ===== src/Resources.antt =====
-- app/db/queries/resources.py: the queries on the table `managed_resources`.
pub mod Queries
pub mod Writes
pub mod Rows
pub mod Rereads
