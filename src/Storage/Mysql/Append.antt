-- ===== src/Storage/Mysql/Append.antt =====
-- storage/mysql/store.go: `Append` writes a message in the host's transaction.
-- storage/mysql/requeue.go: `RequeueConfirmed` schedules a confirmed row again in the host's
-- transaction. `bound` says that the appender holds a transaction.
use reliable_messaging.Base.{
  ℕ, ◌+◌, ◌-◌, ◌/◌, Bool, not, ◌&&◌, ◌||◌, [], Option, none, some, ltb, ◌==◌, if◌then◌else◌, Result,
  ok, err, length, is_empty,
}
use reliable_messaging.Base.Bytes.{Bytes, bytes_eq, u64_mod}
use reliable_messaging.Base.Text.{parse_uint, format_uint}
use reliable_messaging.Env.{Env}
use reliable_messaging.Message.{Message, is_valid, no_digest}
use reliable_messaging.Outbox.{
  StoreError, conflict, stale_requeue, transaction_required, invalid_arguments, driver_error,
}
use reliable_messaging.Storage.Mysql.Rows.{
  Row, Table, Reply, is_answered, is_applied, pending, retry_wait, is_published, present,
  find_identity, add_row, update_row, affected,
}

-- A new row: its due time is written with microseconds, the rest are the columns' defaults.
abbrev pub new_row : ℕ → ℕ → Message → ℕ → Row
new_row now id m due = record {
  id = id;
  input = m.input;
  fingerprint = m.fingerprint;
  state = pending;
  next_attempt_at = due / 1000;
  claim_token = none;
  lease_until = none;
  version = 0;
  attempt_count = 0;
  failure_count = 0;
  last_error_code = [];
  transport_confirmed_at = none;
  manual_replay_request_id = none;
  manual_replay_version = none;
  created_at = now;
  updated_at = now;
}

-- The read of the fingerprint that a duplicate identity has.
abbrev pub compare_existing : Message → Reply → Row → Result StoreError (Unit {0})
compare_existing m reply r =
    if not (is_answered reply)
    then err driver_error
    else if not (bytes_eq r.fingerprint m.fingerprint)
    then err conflict
    else ok tt

unfoldable pub insert_message :
    ℕ → Reply → Reply → Message → ℕ → Table → Result StoreError (Unit {0}) × Table
insert_message now insert select m due t =
    let id = t.next_id in
    let grown = record t { rows = add_row t.rows (new_row now id m due); next_id = id + 1 } in
    elim (find_identity m.input t.rows) [
      | some r ↦ (if is_answered insert then compare_existing m select r else err driver_error, t)
      | none ↦ (
        if is_answered insert then ok tt else err driver_error,
        if is_applied insert then grown else t,
      )
    ]

-- `Append`; `insert` and `select` are the answers to its two statements.
unfoldable pub append :
    ℕ → Reply → Reply → Bool → Message → ℕ → Table → Result StoreError (Unit {0}) × Table
unfolding insert_message
append now insert select bound m due t =
    if not bound
    then (err transaction_required, t)
    else if not (is_valid m) || due == 0
    then (err invalid_arguments, t)
    else insert_message now insert select m due t

pub record ConfirmedRequeue : Type 0 where
  pub record_id : Bytes
  pub expected_version : ℕ
  pub expected_fingerprint : Bytes
  pub request_id : Bytes

-- What `RequeueConfirmed` requires of its input, but for the row's id.
abbrev pub requeue_malformed : Env → ConfirmedRequeue → Bool
requeue_malformed env q =
    q.expected_version == 0
    || q.expected_version == u64_mod - 1
    || bytes_eq q.expected_fingerprint no_digest
    || is_empty q.request_id
    || ltb 64 (length q.request_id)
    || not (bytes_eq (env.trim_space q.request_id) q.request_id)

-- A positive number in its canonical text.
unfoldable pub record_number : Bytes → Option ℕ
record_number text = elim (parse_uint text) [
  | none ↦ none
  | some id ↦ if id == 0 || not (bytes_eq (format_uint id) text) then none else some id
]

abbrev pub requeueable : ConfirmedRequeue → Row → Bool
requeueable q r =
    is_published r.state
    && present r.transport_confirmed_at
    && r.version == q.expected_version
    && bytes_eq r.fingerprint q.expected_fingerprint

abbrev pub requeued : ℕ → ConfirmedRequeue → Row → Row
requeued now q r = record r {
  state = retry_wait;
  next_attempt_at = now;
  claim_token = none;
  lease_until = none;
  manual_replay_request_id = some q.request_id;
  manual_replay_version = some (q.expected_version + 1);
  version = r.version + 1;
  updated_at = now;
}

unfoldable pub requeue_row : ℕ → Reply → ConfirmedRequeue → ℕ → Table → Result StoreError ℕ × Table
requeue_row now reply q id t =
    let n = affected id (requeueable q) t.rows in
    let t' =
      if is_applied reply
      then record t { rows = update_row id (requeueable q) (requeued now q) t.rows }
      else t in
    (
      if not (is_answered reply)
          then err driver_error
          else if not (n == 1)
          then err stale_requeue
          else ok (q.expected_version + 1),
      t',
    )

unfoldable pub requeue_confirmed :
    Env → ℕ → Reply → Bool → ConfirmedRequeue → Table → Result StoreError ℕ × Table
unfolding record_number requeue_row
requeue_confirmed env now reply bound q t =
    if not bound then (err transaction_required, t) else elim (record_number q.record_id) [
      | none ↦ (err invalid_arguments, t)
      | some id ↦
          if requeue_malformed env q
          then (err invalid_arguments, t)
          else requeue_row now reply q id t
    ]
