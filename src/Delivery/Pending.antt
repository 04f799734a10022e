-- ===== src/Delivery/Pending.antt =====
-- delivery/mysql/outbox.go: the records that `Pending` selects.
use reliable_messaging.Base.{ℕ, ◌≤◌, ◌<◌, true, List, ◌≡◌, All, ◌⊎◌}
use reliable_messaging.Delivery.{Record, staged, awaiting_receipt, confirmed}

-- An earlier record of the same aggregate.
pub record Precedes (older n : Record) : Type 0 where
  pub same_producer : older.identity.producer ≡ n.identity.producer
  pub same_destination : older.identity.destination ≡ n.identity.destination
  pub same_aggregate : older.aggregate_key ≡ n.aggregate_key
  pub is_ordered : older.ordered ≡ true
  pub lower : older.aggregate_sequence < n.aggregate_sequence

-- What `Pending` promises of a record: unfinished and available, and if it is ordered, every earlier
-- ordered record of its aggregate in the table is confirmed.
pub record IsPending (now : ℕ) (table : List Record) (n : Record) : Type 0 where
  pub unfinished : (n.stage ≡ staged) ⊎ (n.stage ≡ awaiting_receipt)
  pub available : n.available_at ≤ now
  pub in_order : n.ordered ≡ true → All (λ older. Precedes older n → older.stage ≡ confirmed) table
