-- ===== src/Storage/Mysql/Claim.antt =====
-- storage/mysql/store.go: `ClaimDue` claims due rows in one transaction of its own. Rows that other
-- transactions hold are skipped; a row whose stored content is corrupt is quarantined. An error on
-- the way rolls the transaction back.
use reliable_messaging.Base.{
  ℕ, suc, ◌+◌, ◌-◌, ◌*◌, ◌/◌, ◌%◌, Bool, true, false, not, ◌&&◌, ◌||◌, List, [], ◌∷◌, Option, none,
  some, ltb, leb, ◌==◌, if◌then◌else◌, Result, ok, err, take,
}
use reliable_messaging.Base.Bytes.{Bytes, literal, bytes_eq}
use reliable_messaging.Base.Int.{ℤ, pos, ltb_ℤ, pos_part}
use reliable_messaging.Base.Text.{format_uint, hex}
use reliable_messaging.Env.{Env}
use reliable_messaging.Message.{Message, MessageError, message_of, new}
use reliable_messaging.Outbox.{Claim, StoreError, invalid_arguments, driver_error, random_error}
use reliable_messaging.Storage.Mysql.Rows.{
  Row, Table, Reply, is_answered, is_applied, publishing, quarantined, is_waiting, is_publishing,
  expired, update_row,
}

abbrev pub due : ℕ → Row → Bool
due now r =
    (is_waiting r.state && leb r.next_attempt_at now)
    || (is_publishing r.state && expired now r.lease_until)

-- ORDER BY next_attempt_at, id
abbrev pub before : Row → Row → Bool
before r s =
    ltb r.next_attempt_at s.next_attempt_at
    || (r.next_attempt_at == s.next_attempt_at && leb r.id s.id)

unfoldable pub insert_ordered : Row → List Row → List Row
insert_ordered r [] = r ∷ []
insert_ordered r (s ∷ ss) =
    let rest = insert_ordered r ss in if before r s then r ∷ s ∷ ss else s ∷ rest

-- The rows that are due and not locked, in their order.
unfoldable pub due_rows : ℕ → (ℕ → Bool) → List Row → List Row
due_rows now locked [] = []
due_rows now locked (r ∷ rs) =
    let rest = due_rows now locked rs in
    if due now r && not (locked r.id) then insert_ordered r rest else rest

unfoldable pub select_due : ℕ → (ℕ → Bool) → ℕ → List Row → List Row
unfolding due_rows
select_due now locked limit rows = take limit (due_rows now locked rows)

-- What a call of `ClaimDue` meets outside: the answers to `BeginTx`, to the read of the clock with
-- its decoding, to the selection with the reading of its rows, and to `Commit`; for the candidate of
-- each place, the answer to its UPDATE, the clock that the UPDATE reads and the random bytes, if
-- they could be read.
pub record ClaimIo : Type 0 where
  pub begin_reply : Reply
  pub clock_reply : Reply
  pub select_reply : Reply
  pub commit_reply : Reply
  pub update_reply : ℕ → Reply
  pub written_at : ℕ → ℕ
  pub entropy : ℕ → Option Bytes

-- The lease's end: `now.Add(lease).Truncate(time.Microsecond)`, in nanoseconds.
abbrev pub lease_end : ℕ → ℕ → ℕ
lease_end now lease = now * 1000 + lease - (now * 1000 + lease) % 1000

abbrev pub same_version : ℕ → Row → Bool
same_version version r = r.version == version

abbrev pub corrupt_code : Bytes
corrupt_code = literal "invalid_immutable_content"

abbrev pub set_corrupt : ℕ → Row → Row
set_corrupt now r = record r {
  state = quarantined;
  last_error_code = corrupt_code;
  failure_count = r.failure_count + 1;
  claim_token = none;
  lease_until = none;
  version = r.version + 1;
  updated_at = now;
}

abbrev pub set_claimed : ℕ → ℕ → Bytes → Row → Row
set_claimed now until token r = record r {
  state = publishing;
  claim_token = some token;
  lease_until = some (until / 1000);
  next_attempt_at = until / 1000;
  version = r.version + 1;
  attempt_count = r.attempt_count + 1;
  updated_at = now;
}

abbrev pub claim_of : ℕ → Bytes → Message → Row → Claim
claim_of until token m r = record {
  record_id = format_uint r.id;
  token = token;
  version = r.version + 1;
  attempts = r.attempt_count + 1;
  failure_count = r.failure_count;
  lease_until = until;
  message = m;
}

abbrev pub decoded : Result MessageError Message → Bool
decoded (ok m) = true
decoded (err e) = false

-- The stored content is a message, and its fingerprint is the stored one.
abbrev pub intact : Env → Row → Bool
intact env r =
    decoded (new env r.input) && bytes_eq r.fingerprint (message_of (new env r.input)).fingerprint

-- The rows after the loop and the claims, or the error that ends it.
abbrev pub Claimed : Type 0
Claimed = Result StoreError (List Row × List Claim)

abbrev pub add_claim : Claim → Claimed → Claimed
add_claim c (ok (rows, cs)) = ok (rows, c ∷ cs)
add_claim c (err e) = err e

abbrev pub token_of : Option Bytes → Bytes
token_of none = []
token_of (some bs) = hex bs

module _ (env : Env) (io : ClaimIo) (now lease : ℕ) where
  -- The UPDATE of the candidate at place `k`.
  abbrev pub set_candidate : ℕ → Row → Row → Row
  set_candidate k r =
      if intact env r
      then set_claimed (io.written_at k) (lease_end now lease) (token_of (io.entropy k))
      else set_corrupt (io.written_at k)

  abbrev pub claim_for : ℕ → Row → Claim
  claim_for k r =
      claim_of (lease_end now lease) (token_of (io.entropy k)) (message_of (new env r.input)) r

  -- One round of the loop, where `rest` is what the later rounds return.
  unfoldable pub claim_round : ℕ → Row → Claimed → Claimed
  claim_round k r rest =
      let failed = not (is_answered (io.update_reply k)) in
      if not (intact env r)
      then (if failed then err driver_error else rest)
      else elim (io.entropy k) [
        | none ↦ err random_error
        | some bs ↦ if failed then err driver_error else add_claim (claim_for k r) rest
      ]

  -- The loop over the candidates; `k` is the place of the next one.
  unfoldable pub claim_rows : ℕ → List Row → List Row → Claimed
  unfolding claim_round
  claim_rows k [] rows = ok (rows, [])
  claim_rows k (r ∷ rs) rows =
      claim_round k r
        (claim_rows (suc k) rs (update_row r.id (same_version r.version) (set_candidate k r) rows))

abbrev pub limits_invalid : ℤ → ℤ → Bool
limits_invalid limit lease =
    ltb_ℤ limit (pos 1)
    || ltb_ℤ (pos 1000) limit
    || ltb_ℤ lease (pos 1000)
    || ltb_ℤ (pos 86400000000000) lease

-- `Commit` of what the loop wrote: with a lost acknowledgement the rows are claimed and nobody is told.
abbrev pub commit_claims : Reply → Table → Claimed → Result StoreError (List Claim) × Table
commit_claims reply t (err e) = (err e, t)
commit_claims reply t (ok (rows, claims)) = (
  if is_answered reply then ok claims else err driver_error,
  if is_applied reply then record t { rows = rows } else t,
)

unfoldable pub claim_due :
    Env → ClaimIo → ℕ → (ℕ → Bool) → ℤ → ℤ → Table → Result StoreError (List Claim) × Table
claim_due env io now locked limit lease t =
    if limits_invalid limit lease
    then (err invalid_arguments, t)
    else if not (is_answered io.begin_reply)
        || not (is_answered io.clock_reply)
        || not (is_answered io.select_reply)
    then (err driver_error, t)
    else commit_claims io.commit_reply t (
        claim_rows env io now (pos_part lease) 0 (select_due now locked (pos_part limit) t.rows)
          t.rows)
