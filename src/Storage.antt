-- ===== src/Storage.antt =====
-- storage/: the implementations of the outbox stores.
pub mod Mysql
pub mod Transactions
