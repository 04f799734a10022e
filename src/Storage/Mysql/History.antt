-- ===== src/Storage/Mysql/History.antt =====
-- storage/mysql/: no sequence of operations loses a row, changes its content, or lowers its version.
use reliable_messaging.Base.{
  ℕ, ◌+◌, Bool, true, false, not, List, [], ◌∷◌, some, ◌≡◌, refl, arith, ◌==◌, Bool-cases,
  Option-cases, inl, inr, ◌⊎◌, ◌||◌, is_empty,
}
use reliable_messaging.Base.Bytes.{Bytes}
use reliable_messaging.Base.Int.{ℤ, pos, leb_ℤ}
use reliable_messaging.Env.{Env}
use reliable_messaging.Message.{Message, is_valid}
use reliable_messaging.Outbox.{Claim}
use reliable_messaging.Storage.Mysql.Rows.{Row, Table, Reply, add_row, is_applied, find_identity}
use reliable_messaging.Storage.Mysql.Append.{
  append, insert_message, new_row, ConfirmedRequeue, requeued, requeue_row, requeueable,
  requeue_confirmed, record_number, requeue_malformed,
}
use reliable_messaging.Storage.Mysql.Write.{
  released, set_confirmed, set_retry, set_quarantined, write_row, update, confirm, retry,
  quarantine, claim_holds, bad_code,
}
use reliable_messaging.Storage.Mysql.Claim.{set_claimed, set_corrupt}
use reliable_messaging.Storage.Mysql.Growth.{
  Evolving, RowsGrow-refl, RowsGrow-trans, Grows, Writes, nothing, updates, inserts, Writes-Grows,
}
use reliable_messaging.Storage.Mysql.Claiming.{claim_due-Writes}
use reliable_messaging.Storage.Mysql.Operations.{
  Op, append_message, requeue, claim, confirm_claim, retry_claim, quarantine_claim, run, run_all,
}

confirmed-Evolving : (now : ℕ) → Evolving (λ r. released now (set_confirmed now r))
confirmed-Evolving now r = ground arith

retried-Evolving :
    (now : ℕ) (delay : ℤ) (code : Bytes) → Evolving (λ r. released now (set_retry now delay code r))
retried-Evolving now delay code r = ground arith

quarantined-Evolving :
    (now : ℕ) (code : Bytes) → Evolving (λ r. released now (set_quarantined code r))
quarantined-Evolving now code r = ground arith

requeued-Evolving : (now : ℕ) (q : ConfirmedRequeue) → Evolving (requeued now q)
requeued-Evolving now q r = ground arith

claimed-Evolving : (now until : ℕ) (token : Bytes) → Evolving (set_claimed now until token)
claimed-Evolving now until token r = ground arith

corrupt-Evolving : (now : ℕ) → Evolving (set_corrupt now)
corrupt-Evolving now r = ground arith

write_row-Writes :
    (now : ℕ) (reply : Reply) (c : Claim) (set : Row → Row) (id : ℕ) (t : Table)
    → Evolving (λ r. released now (set r))
    → Writes t (write_row now reply c set id t).1
unfolding write_row
write_row-Writes now reply c set id t g = elim (Bool-cases (is_applied reply)) [
  | inl done ↦ rw done (updates id (claim_holds now c) _ nothing g)
  | inr not_done ↦ rw not_done nothing
]

-- A write is refused before it reaches the table, or is the statement for one id.
pub update_cases :
    (now : ℕ) (reply : Reply) (c : Claim) (set : Row → Row) (t : Table)
    → ((update now reply c set t).1 ≡ t)
      ⊎ ((id : ℕ) × (record_number c.record_id ≡ some id)
          × ((update now reply c set t).1 ≡ (write_row now reply c set id t).1))
unfolding update
update_cases now reply c set t = elim (Option-cases (record_number c.record_id)) [
  | inl n ↦ inl (rw (n, update))
  | inr (id, e) ↦ elim (Bool-cases (is_empty c.token || c.version == 0)) [
    | inl bad ↦ inl (rw (e, bad, update))
    | inr good ↦ inr (id, e, rw (e, good, update))
  ]
]

update-Writes :
    (now : ℕ) (reply : Reply) (c : Claim) (set : Row → Row) (t : Table)
    → Evolving (λ r. released now (set r))
    → Writes t (update now reply c set t).1
update-Writes now reply c set t g = elim (update_cases now reply c set t) [
  | inl same ↦ rw same nothing
  | inr (id, _, e) ↦ rw e (write_row-Writes now reply c set id t g)
]

pub confirm-Writes :
    (now : ℕ) (reply : Reply) (c : Claim) (t : Table) → Writes t (confirm now reply c t).1
unfolding confirm
confirm-Writes now reply c t =
    update-Writes now reply c (set_confirmed now) t (confirmed-Evolving now)

pub retry-Writes :
    (now : ℕ) (reply : Reply) (c : Claim) (delay : ℤ) (code : Bytes) (t : Table)
    → Writes t (retry now reply c delay code t).1
unfolding retry
retry-Writes now reply c delay code t = elim (Bool-cases (leb_ℤ delay (pos 0) || bad_code code)) [
  | inl bad ↦ rw bad nothing
  | inr good ↦
      rw good
        (update-Writes now reply c (set_retry now delay code) t (retried-Evolving now delay code))
]

pub quarantine-Writes :
    (now : ℕ) (reply : Reply) (c : Claim) (code : Bytes) (t : Table)
    → Writes t (quarantine now reply c code t).1
unfolding quarantine
quarantine-Writes now reply c code t = elim (Bool-cases (bad_code code)) [
  | inl bad ↦ rw bad nothing
  | inr good ↦
      rw good (update-Writes now reply c (set_quarantined code) t (quarantined-Evolving now code))
]

insert_message_cases :
    (now : ℕ) (insert select : Reply) (m : Message) (due : ℕ) (t : Table)
    → ((insert_message now insert select m due t).1 ≡ t)
      ⊎ ((insert_message now insert select m due t).1 ≡ record t {
        rows = add_row t.rows (new_row now t.next_id m due);
        next_id = t.next_id + 1;
      })
unfolding insert_message
insert_message_cases now insert select m due t =
    elim (Option-cases (find_identity m.input t.rows)) [
      | inl n ↦ elim (Bool-cases (is_applied insert)) [
        | inl done ↦ inr (rw (n, done, insert_message))
        | inr not_done ↦ inl (rw (n, not_done, insert_message))
      ]
      | inr (r, e) ↦ inl (rw (e, insert_message))
    ]

append-Writes :
    (now : ℕ) (insert select : Reply) (bound : Bool) (m : Message) (due : ℕ) (t : Table)
    → Writes t (append now insert select bound m due t).1
unfolding append
append-Writes now insert select false m due t = nothing
append-Writes now insert select true m due t = elim (Bool-cases (not (is_valid m) || due == 0)) [
  | inl bad ↦ rw bad nothing
  | inr good ↦ rw good (elim (insert_message_cases now insert select m due t) [
    | inl same ↦ rw same nothing
    | inr e ↦ rw e (inserts (new_row now t.next_id m due) nothing refl)
  ])
]

requeue_row-Writes :
    (now : ℕ) (reply : Reply) (q : ConfirmedRequeue) (id : ℕ) (t : Table)
    → Writes t (requeue_row now reply q id t).1
unfolding requeue_row
requeue_row-Writes now reply q id t = elim (Bool-cases (is_applied reply)) [
  | inl done ↦ rw done (updates id (requeueable q) _ nothing (requeued-Evolving now q))
  | inr not_done ↦ rw not_done nothing
]

requeue_confirmed-Writes :
    (env : Env) (now : ℕ) (reply : Reply) (bound : Bool) (q : ConfirmedRequeue) (t : Table)
    → Writes t (requeue_confirmed env now reply bound q t).1
unfolding requeue_confirmed
requeue_confirmed-Writes env now reply false q t = nothing
requeue_confirmed-Writes env now reply true q t = elim (Option-cases (record_number q.record_id)) [
  | inl n ↦ rw n nothing
  | inr (id, e) ↦ elim (Bool-cases (requeue_malformed env q)) [
    | inl bad ↦ rw (e, bad) nothing
    | inr good ↦ rw (e, good) (requeue_row-Writes now reply q id t)
  ]
]

pub run-Writes : (env : Env) (op : Op) (t : Table) → Writes t (run env op t)
unfolding run
run-Writes env (append_message now insert select bound m due) t =
    append-Writes now insert select bound m due t
run-Writes env (requeue now reply bound q) t = requeue_confirmed-Writes env now reply bound q t
run-Writes env (claim io now locked limit lease) t =
    claim_due-Writes env io now locked limit lease t
run-Writes env (confirm_claim now reply c) t = confirm-Writes now reply c t
run-Writes env (retry_claim now reply c delay code) t = retry-Writes now reply c delay code t
run-Writes env (quarantine_claim now reply c code) t = quarantine-Writes now reply c code t

-- Under any sequence of operations of appenders and stores, at any times, whatever the database
-- answers, every row stays in the table: its key, content and creation time never change, its
-- version and counters never fall, a change raises the version, and a broker confirmation that it
-- records is never erased.
pub run_all-Grows : (env : Env) (ops : List Op) (t : Table) → Grows t (run_all env ops t)
unfolding run_all
run_all-Grows env [] t = RowsGrow-refl t.rows
run_all-Grows env (op ∷ ops) t =
    let u = run env op t in
    RowsGrow-trans t.rows u.rows (run_all env ops u).rows (Writes-Grows (run-Writes env op t))
      (run_all-Grows env ops u)
