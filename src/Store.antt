-- ===== src/Store.antt =====
-- internal/store/store.go: the SQLite tables and the statements that the store runs on them.
pub mod Tables
pub mod Db
pub mod Statements
pub mod Transactions
pub mod Commit
pub mod Retention
