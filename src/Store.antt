-- ===== src/Store.antt =====
-- store/: what the storage backends compute before they query a database.
pub mod TextUtil
pub mod Backend
pub mod EntityTables
pub mod Sqlite
