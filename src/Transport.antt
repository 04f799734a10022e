-- ===== src/Transport.antt =====
-- transport/publisher.go: what a publisher reports. An outcome is a byte in Go: `other_outcome` is
-- any value but the three constants.
pub mod Routing
pub mod Routes
pub mod Canonical
pub mod Validated
pub mod Recorded
use reliable_messaging.Base.{ℕ}

pub data Outcome : Type 0 where
  unknown confirmed rejected : Outcome
  other_outcome : ℕ → Outcome
