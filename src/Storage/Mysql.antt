-- ===== src/Storage/Mysql.antt =====
-- storage/mysql/: the outbox over the table rm_outbox of storage/mysql/schema.sql.
pub mod Rows
pub mod Append
pub mod Write
pub mod Claim
pub mod Table
pub mod Growth
pub mod Operations
pub mod Claiming
pub mod History
pub mod Keys
pub mod Fencing
pub mod Released
pub mod Superseded
pub mod Selection
pub mod Ordering
pub mod Claims
pub mod Granting
pub mod Grants
pub mod Granted
pub mod Lease
pub mod Counter
pub mod Unpublished
