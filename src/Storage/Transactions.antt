-- ===== src/Storage/Transactions.antt =====
-- storage/transaction/mysql/: the store of transaction executions and their witnesses.
pub mod Rows
pub mod Monad
pub mod Reading
pub mod Granting
pub mod Ending
pub mod Receipts
pub mod Updates
pub mod Evolution
pub mod Changes
pub mod Moves
pub mod Bodies
pub mod Calls
pub mod Steps
pub mod Stability
pub mod Inversion
pub mod Fencing
pub mod Once
pub mod Starting
pub mod Inserting
pub mod Capability
pub mod Reads
pub mod Permission
pub mod Advancing
