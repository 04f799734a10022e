-- ===== src/Transaction/Evidence/Resolve.antt =====
-- transaction/evidence.go: only exact, terminal evidence resolves a reference.
use reliable_messaging.Base.{true, Option, none, some, ◌≡◌, ◌↔◌, arith}
use reliable_messaging.Base.Bytes.{bytes_eq_iff}
use reliable_messaging.Transaction.Evidence.{
  State, committed, aborted, commit, rollback, Reference, ref_valid, ref_eq, Evidence, resolve,
}

pub ref_eq_iff : (r s : Reference) → (ref_eq r s ≡ true) ↔ (r ≡ s)
unfolding ref_eq
ref_eq_iff r s = ground (
  arith,
  bytes_eq_iff r.owner s.owner,
  bytes_eq_iff r.scope s.scope,
  bytes_eq_iff r.operation_id s.operation_id,
  bytes_eq_iff r.branch_id s.branch_id,
  bytes_eq_iff r.message_id s.message_id,
  bytes_eq_iff r.logical_topic s.logical_topic,
  bytes_eq_iff r.physical_topic s.physical_topic,
  bytes_eq_iff r.route_revision s.route_revision,
  bytes_eq_iff r.writer_epoch s.writer_epoch,
  bytes_eq_iff r.plan_digest s.plan_digest,
  bytes_eq_iff r.wire_hash s.wire_hash,
  bytes_eq_iff r.message_fingerprint s.message_fingerprint,
)

-- The evidence that proves an outcome: of exactly this reference, both states terminal and alike.
abbrev pub proof_of : Reference → State → Option Evidence
proof_of r s = some (record { about = r; execution_state = s; branch_state = s })

-- A reference resolves to commit exactly if it is valid and the evidence is its own, committed in
-- both states; to rollback exactly if both are aborted; to unknown in all other cases.
pub resolve_iff :
    (r : Reference) (e : Option Evidence)
    → ((resolve r e ≡ commit) ↔ ((ref_valid r ≡ true) × (e ≡ proof_of r committed)))
      × ((resolve r e ≡ rollback) ↔ ((ref_valid r ≡ true) × (e ≡ proof_of r aborted)))
unfolding resolve
resolve_iff r none = ground arith
resolve_iff r (some e) = ground (arith, ref_eq_iff e.about r)
