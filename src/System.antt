-- ===== src/System.antt =====
-- The parts together: server and client, session and database.
pub mod Roster
