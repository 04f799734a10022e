-- ===== src/Outbox.antt =====
-- outbox/store.go: claims of durable records and the sentinel errors of the stores.
pub mod Status
use reliable_messaging.Base.{ℕ}
use reliable_messaging.Base.Bytes.{Bytes}
use reliable_messaging.Message.{Message}

pub record Claim : Type 0 where
  pub record_id : Bytes
  pub token : Bytes
  pub version : ℕ
  pub attempts : ℕ
  pub failure_count : ℕ
  pub lease_until : ℕ  -- nanoseconds since Go's zero time
  pub message : Message

-- `conflict`, `stale_claim` and `stale_requeue` are the sentinels; the others are the errors that
-- the stores make, and those that come from the driver or the random source.
pub data StoreError : Type 0 where
  conflict stale_claim stale_requeue : StoreError
  transaction_required invalid_arguments : StoreError
  driver_error random_error : StoreError
