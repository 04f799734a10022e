-- ===== src/Delivery/Stages.antt =====
-- delivery/mysql/outbox.go: only the receipt confirms a record that requires one, and only the
-- receipt takes such a record out of the hold.
use reliable_messaging.Base.{
  ◌≤◌, true, List, [], ◌∷◌, some, ◌≡◌, ◌≢◌, refl, ◌∙◌, inl, inr, arith, All,
}
use mathlib.Core.Path.{subst}
use reliable_messaging.Delivery.{
  Identity, Record, confirmed, held, find_record, Op, publish_op, confirm_op, retry_op, hold_op,
  rearm_op, run, run_all,
}
use reliable_messaging.Delivery.Receipts.{effect, call_of}
use reliable_messaging.Delivery.Outcomes.{run_cases}

-- The operation is not the receipt of the identity.
abbrev pub NotReceipt : Identity → Op → Type 0
NotReceipt j (confirm_op c) = c.id ≢ j
NotReceipt j (publish_op c wait) = Unit
NotReceipt j (retry_op c delay code) = Unit
NotReceipt j (hold_op c code) = Unit
NotReceipt j (rearm_op c) = Unit

-- What no operation changes, and the attempts, which never fall.
pub record SameContent (r s : Record) : Type 0 where
  pub same_identity : s.identity ≡ r.identity
  pub same_hash : s.body_sha256 ≡ r.body_sha256
  pub same_body : s.body ≡ r.body
  pub same_wire : s.wire ≡ r.wire
  pub same_topic : s.topic ≡ r.topic
  pub same_aggregate : s.aggregate_key ≡ r.aggregate_key
  pub same_sequence : s.aggregate_sequence ≡ r.aggregate_sequence
  pub same_ordered : s.ordered ≡ r.ordered
  pub same_requirement : s.requires_receipt ≡ r.requires_receipt
  pub attempts_grow : r.attempts ≤ s.attempts

-- A record that still waits for its receipt; one on hold stays there.
pub record IsAwaited (r s : Record) : Type 0 where
  pub content : SameContent r s
  pub not_confirmed : s.stage ≢ confirmed
  pub held_stays : r.stage ≡ held → s.stage ≡ held

IsAwaited-effect :
    (op : Op) (r s : Record)
    → r.requires_receipt ≡ true
    → NotReceipt (call_of op).id op
    → IsAwaited r s
    → IsAwaited r (effect op s)
IsAwaited-effect (publish_op c wait) r s q n a = grind (arith, a.content.same_requirement)
IsAwaited-effect (confirm_op c) r s q n a = absurd (n refl)
IsAwaited-effect (retry_op c delay code) r s q n a = grind arith
IsAwaited-effect (hold_op c code) r s q n a = grind arith
IsAwaited-effect (rearm_op c) r s q n a = grind (arith, a.content.same_requirement)

-- The row of the identity is there, and still waits.
abbrev pub StillAwaited : Identity → Record → List Record → Type 0
StillAwaited j r rs = (s : Record) × (find_record j rs ≡ some s) × IsAwaited r s

run-StillAwaited :
    (op : Op) (j : Identity) (r : Record) (rs : List Record)
    → r.requires_receipt ≡ true
    → NotReceipt j op
    → StillAwaited j r rs
    → StillAwaited j r (run op rs)
run-StillAwaited op j r rs q n (s, found, a) = elim (run_cases op j rs) [
  | inr (_, same) ↦ (s, same ∙ found, a)
  | inl (u, g, e) ↦
      let own = g.own in
      let here : find_record j rs ≡ some u = rw own g.is_locked.found in
      let same : u ≡ s = cc (here, found) in
      (
        effect op s,
        e ∙ rw same refl,
        IsAwaited-effect op r s q (subst (λ k. NotReceipt k op) own n) a,
      )
]

run_all-StillAwaited :
    (ops : List Op) (j : Identity) (r : Record) (rs : List Record)
    → r.requires_receipt ≡ true
    → All (NotReceipt j) ops
    → StillAwaited j r rs
    → StillAwaited j r (run_all ops rs)
unfolding run_all
run_all-StillAwaited [] j r rs q n a = a
run_all-StillAwaited (op ∷ ops) j r rs q n a =
    run_all-StillAwaited ops j r (run op rs) q n.1 (run-StillAwaited op j r rs q n.0 a)

-- A record that requires a receipt and is not confirmed stays so under any operations but the receipt
-- of its own identity, whatever the database answers: publishing it, retries and rearming never
-- confirm it, its content does not change, its attempts never fall, and on hold it stays on hold.
pub run_all-IsAwaited :
    (ops : List Op) (r : Record) (j : Identity) (rs : List Record)
    → find_record j rs ≡ some r
    → r.requires_receipt ≡ true
    → r.stage ≢ confirmed
    → All (NotReceipt j) ops
    → (s : Record) × (find_record j (run_all ops rs) ≡ some s) × IsAwaited r s
run_all-IsAwaited ops r j rs found q open_yet n = run_all-StillAwaited ops j r rs q n (
  r,
  found,
  record {
    content = record {
      same_identity = refl;
      same_hash = refl;
      same_body = refl;
      same_wire = refl;
      same_topic = refl;
      same_aggregate = refl;
      same_sequence = refl;
      same_ordered = refl;
      same_requirement = refl;
      attempts_grow = omega arith;
    };
    not_confirmed = open_yet;
    held_stays = λ h. h;
  },
)
