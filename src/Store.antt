-- ===== src/Store.antt =====
-- The database that the repositories under internal/ share: its rows, and its transactions.
pub mod Rows
pub mod Tx
