-- ===== src/Transaction.antt =====
-- transaction/: the versioned contracts of transaction messages. Plans freeze the branches of one
-- business request, evidence of the host database resolves them, executions carry the fence.
pub mod Plan
pub mod Evidence
pub mod Execution
pub mod Receipt
pub mod Codec
pub mod Checker
