-- ===== src/Delivery/Effects.antt =====
-- delivery/mysql/outbox.go: what an operation leaves in its row, column by column.
use reliable_messaging.Base.{
  ℕ, ◌+◌, ◌*◌, true, false, [], none, some, ◌≡◌, ◌⊎◌, inl, inr, refl, Bool-cases, List,
}
use reliable_messaging.Base.Bytes.{Bytes}
use reliable_messaging.Base.Int.{pos_part}
use reliable_messaging.Delivery.{
  Identity, Record, staged, awaiting_receipt, confirmed, held, find_record, Op, publish_op,
  confirm_op, retry_op, hold_op, rearm_op, run,
}
use reliable_messaging.Delivery.Receipts.{
  effect, Concerns, GoesThrough, ne-is_confirmed, ne-is_held,
}
use reliable_messaging.Delivery.Outcomes.{run_cases}

-- The columns that no operation writes.
pub record SameColumns (r s : Record) : Type 0 where
  pub same_identity : s.identity ≡ r.identity
  pub same_hash : s.body_sha256 ≡ r.body_sha256
  pub same_body : s.body ≡ r.body
  pub same_wire : s.wire ≡ r.wire
  pub same_topic : s.topic ≡ r.topic
  pub same_aggregate : s.aggregate_key ≡ r.aggregate_key
  pub same_sequence : s.aggregate_sequence ≡ r.aggregate_sequence
  pub same_ordered : s.ordered ≡ r.ordered
  pub same_requirement : s.requires_receipt ≡ r.requires_receipt

-- The broker has the record: with a receipt to come it awaits it, with one attempt more; without
-- one it is confirmed.
pub record IsPublished (now seconds : ℕ) (r s : Record) : Type 0 where
  pub columns : SameColumns r s
  pub stage :
      ((r.requires_receipt ≡ true)
        × (s.stage ≡ awaiting_receipt)
        × (s.attempts ≡ r.attempts + 1)
        × (s.confirmed_at ≡ none))
      ⊎ ((r.requires_receipt ≡ false)
          × (s.stage ≡ confirmed)
          × (s.attempts ≡ r.attempts)
          × (s.confirmed_at ≡ some now))
  pub published_now : s.published_at ≡ some now
  pub next_due : s.available_at ≡ now + seconds * 1000000
  pub no_error : s.error_code ≡ []

-- The receipt has arrived.
pub record IsReceived (now : ℕ) (r s : Record) : Type 0 where
  pub columns : SameColumns r s
  pub in_confirmed : s.stage ≡ confirmed
  pub confirmed_now : s.confirmed_at ≡ some now
  pub no_error : s.error_code ≡ []
  pub same_attempts : s.attempts ≡ r.attempts
  pub same_due : s.available_at ≡ r.available_at
  pub same_published : s.published_at ≡ r.published_at

-- The attempt has failed: it is counted, and the next one waits.
pub record IsDelayed (now seconds : ℕ) (code : Bytes) (r s : Record) : Type 0 where
  pub columns : SameColumns r s
  pub same_stage : s.stage ≡ r.stage
  pub one_more_attempt : s.attempts ≡ r.attempts + 1
  pub next_due : s.available_at ≡ now + seconds * 1000000
  pub coded : s.error_code ≡ code
  pub same_published : s.published_at ≡ r.published_at
  pub same_confirmed : s.confirmed_at ≡ r.confirmed_at

-- The record is on hold.
pub record IsStopped (code : Bytes) (r s : Record) : Type 0 where
  pub columns : SameColumns r s
  pub in_held : s.stage ≡ held
  pub coded : s.error_code ≡ code
  pub same_attempts : s.attempts ≡ r.attempts
  pub same_due : s.available_at ≡ r.available_at
  pub same_published : s.published_at ≡ r.published_at
  pub same_confirmed : s.confirmed_at ≡ r.confirmed_at

-- The record is to be published again, at once.
pub record IsRearmed (now : ℕ) (r s : Record) : Type 0 where
  pub columns : SameColumns r s
  pub in_staged : s.stage ≡ staged
  pub due_now : s.available_at ≡ now
  pub not_confirmed : s.confirmed_at ≡ none
  pub no_error : s.error_code ≡ []
  pub same_attempts : s.attempts ≡ r.attempts
  pub same_published : s.published_at ≡ r.published_at

abbrev pub HasEffect : Op → Record → Record → Type 0
HasEffect (publish_op c wait) r s = IsPublished c.now (pos_part wait) r s
HasEffect (confirm_op c) r s = IsReceived c.now r s
HasEffect (retry_op c delay code) r s = IsDelayed c.now (pos_part delay) code r s
HasEffect (hold_op c code) r s = IsStopped code r s
HasEffect (rearm_op c) r s = IsRearmed c.now r s

effect-HasEffect : (op : Op) (r : Record) → Concerns op r → HasEffect op r (effect op r)
effect-HasEffect (publish_op c wait) r (a, b) =
    let not_done = ne-is_confirmed r.stage a in
    let not_held = ne-is_held r.stage b in
    rw (not_done, not_held)
      (record {
        columns = record {
          same_identity = refl;
          same_hash = refl;
          same_body = refl;
          same_wire = refl;
          same_topic = refl;
          same_aggregate = refl;
          same_sequence = refl;
          same_ordered = refl;
          same_requirement = refl;
        };
        stage = elim (Bool-cases r.requires_receipt) [
          | inl q ↦ rw q (inl (refl, refl, refl, refl))
          | inr q ↦ rw q (inr (refl, refl, refl, refl))
        ];
        published_now = refl;
        next_due = refl;
        no_error = refl;
      })
effect-HasEffect (confirm_op c) r wanted = rw wanted (record {
  columns = record {
    same_identity = refl;
    same_hash = refl;
    same_body = refl;
    same_wire = refl;
    same_topic = refl;
    same_aggregate = refl;
    same_sequence = refl;
    same_ordered = refl;
    same_requirement = refl;
  };
  in_confirmed = refl;
  confirmed_now = refl;
  no_error = refl;
  same_attempts = refl;
  same_due = refl;
  same_published = refl;
})
effect-HasEffect (retry_op c delay code) r (a, b) =
    let not_done = ne-is_confirmed r.stage a in
    let not_held = ne-is_held r.stage b in
    rw (not_done, not_held)
      (record {
        columns = record {
          same_identity = refl;
          same_hash = refl;
          same_body = refl;
          same_wire = refl;
          same_topic = refl;
          same_aggregate = refl;
          same_sequence = refl;
          same_ordered = refl;
          same_requirement = refl;
        };
        same_stage = refl;
        one_more_attempt = refl;
        next_due = refl;
        coded = refl;
        same_published = refl;
        same_confirmed = refl;
      })
effect-HasEffect (hold_op c code) r a =
    let not_done = ne-is_confirmed r.stage a in
    rw not_done (record {
      columns = record {
        same_identity = refl;
        same_hash = refl;
        same_body = refl;
        same_wire = refl;
        same_topic = refl;
        same_aggregate = refl;
        same_sequence = refl;
        same_ordered = refl;
        same_requirement = refl;
      };
      in_held = refl;
      coded = refl;
      same_attempts = refl;
      same_due = refl;
      same_published = refl;
      same_confirmed = refl;
    })
effect-HasEffect (rearm_op c) r (none_wanted, b) =
    let not_held = ne-is_held r.stage b in
    rw (none_wanted, not_held)
      (record {
        columns = record {
          same_identity = refl;
          same_hash = refl;
          same_body = refl;
          same_wire = refl;
          same_topic = refl;
          same_aggregate = refl;
          same_sequence = refl;
          same_ordered = refl;
          same_requirement = refl;
        };
        in_staged = refl;
        due_now = refl;
        not_confirmed = refl;
        no_error = refl;
        same_attempts = refl;
        same_published = refl;
      })

-- An operation either gets through to the row of its identity and has its effect there, column by
-- column, or it does not get through and leaves the row as it is. It gets through exactly if its
-- arguments are in range, it finds the row under a whole identity with the body's hash, it concerns
-- the row by its stage and its need for a receipt, and the database applies its statement.
pub run-Changed :
    (op : Op) (j : Identity) (rs : List Record)
    → ((r : Record) × GoesThrough op j rs r
        × (s : Record) × (find_record j (run op rs) ≡ some s)
        × HasEffect op r s)
      ⊎ (((r : Record) → ¬ GoesThrough op j rs r) × (find_record j (run op rs) ≡ find_record j rs))
run-Changed op j rs = elim (run_cases op j rs) [
  | inl (r, g, e) ↦ inl (r, g, effect op r, e, effect-HasEffect op r g.concerned)
  | inr (none_through, e) ↦ inr (none_through, e)
]
