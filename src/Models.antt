-- ===== src/Models.antt =====
-- The rows of the database (backend/app/models), one child for each group of tables.
pub mod Ticket
pub mod Records
