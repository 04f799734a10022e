-- ===== src/Storage/Mysql/Write.antt =====
-- storage/mysql/store.go: the conditional writes of a claim's holder. Each matches the record, the
-- token, the version, the state and a lease that has not expired by the database clock.
use reliable_messaging.Base.{
  ℕ, ◌+◌, ◌/◌, ◌%◌, Bool, not, ◌&&◌, ◌||◌, [], none, some, ltb, ◌==◌, if◌then◌else◌, Result, ok,
  err, length, is_empty,
}
use reliable_messaging.Base.Bytes.{Bytes}
use reliable_messaging.Base.Int.{ℤ, pos, leb_ℤ, pos_part}
use reliable_messaging.Outbox.{Claim, StoreError, stale_claim, invalid_arguments, driver_error}
use reliable_messaging.Storage.Mysql.Rows.{
  Row, Table, Reply, is_answered, is_applied, published, retry_wait, quarantined, is_publishing,
  unexpired, holds, update_row, affected,
}
use reliable_messaging.Storage.Mysql.Append.{record_number}

abbrev pub claim_holds : ℕ → Claim → Row → Bool
claim_holds now c r =
    holds r.claim_token c.token
    && r.version == c.version
    && is_publishing r.state
    && unexpired now r.lease_until

-- What every conditional write does beside its own columns.
abbrev pub released : ℕ → Row → Row
released now r = record r {
  claim_token = none;
  lease_until = none;
  version = r.version + 1;
  updated_at = now;
}

unfoldable pub write_row :
    ℕ → Reply → Claim → (Row → Row) → ℕ → Table → Result StoreError (Unit {0}) × Table
write_row now reply c set id t =
    let n = affected id (claim_holds now c) t.rows in
    let t' =
      if is_applied reply
      then record t { rows = update_row id (claim_holds now c) (λ r. released now (set r)) t.rows }
      else t in
    (
      if not (is_answered reply)
          then err driver_error
          else if not (n == 1)
          then err stale_claim
          else ok tt,
      t',
    )

-- `Store.update`
unfoldable pub update :
    ℕ → Reply → Claim → (Row → Row) → Table → Result StoreError (Unit {0}) × Table
update now reply c set t = elim (record_number c.record_id) [
  | none ↦ (err stale_claim, t)
  | some id ↦
      if is_empty c.token || c.version == 0
      then (err stale_claim, t)
      else write_row now reply c set id t
]

abbrev pub set_confirmed : ℕ → Row → Row
set_confirmed now r = record r {
  state = published;
  transport_confirmed_at = some now;
  last_error_code = [];
}

unfoldable pub confirm : ℕ → Reply → Claim → Table → Result StoreError (Unit {0}) × Table
confirm now reply c t = update now reply c (set_confirmed now) t

-- `delay / time.Microsecond`, rounded up; the delay is positive here.
abbrev pub retry_micros : ℤ → ℕ
retry_micros delay = let d = pos_part delay in if d % 1000 == 0 then d / 1000 else d / 1000 + 1

abbrev pub set_retry : ℕ → ℤ → Bytes → Row → Row
set_retry now delay code r = record r {
  state = retry_wait;
  next_attempt_at = now + retry_micros delay;
  last_error_code = code;
  failure_count = r.failure_count + 1;
}

abbrev pub bad_code : Bytes → Bool
bad_code code = is_empty code || ltb 128 (length code)

unfoldable pub retry : ℕ → Reply → Claim → ℤ → Bytes → Table → Result StoreError (Unit {0}) × Table
retry now reply c delay code t =
    if leb_ℤ delay (pos 0) || bad_code code
    then (err invalid_arguments, t)
    else update now reply c (set_retry now delay code) t

abbrev pub set_quarantined : Bytes → Row → Row
set_quarantined code r = record r {
  state = quarantined;
  last_error_code = code;
  failure_count = r.failure_count + 1;
}

unfoldable pub quarantine : ℕ → Reply → Claim → Bytes → Table → Result StoreError (Unit {0}) × Table
quarantine now reply c code t =
    if bad_code code
    then (err invalid_arguments, t)
    else update now reply c (set_quarantined code) t
