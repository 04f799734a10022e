-- ===== src/Storage/Mysql/Released.antt =====
-- storage/mysql/store.go: what a conditional write leaves in the table, column by column.
use reliable_messaging.Base.{ℕ, ◌+◌, none, some, ◌≡◌, ◌≢◌, refl, arith, inl, inr, ◌⊎◌, ok, err, ◌∙◌}
use reliable_messaging.Outbox.{Claim, stale_claim}
use reliable_messaging.Storage.Mysql.Rows.{Row, Table, answered, find_row}
use reliable_messaging.Storage.Mysql.Write.{update, released, claim_holds}
use reliable_messaging.Storage.Mysql.Table.{find_row-update_row, KeepsId}
use reliable_messaging.Storage.Mysql.Keys.{IsTable}
use reliable_messaging.Storage.Mysql.Fencing.{IsHolder, IsHeld-claim_holds, update_cases, written}

-- The row `s` holds the columns of `q`, except that no claim and no lease is on it any more and that
-- it has the next version and the time of the write.
pub record IsReleased (now : ℕ) (q s : Row) : Type 0 where
  pub no_token : s.claim_token ≡ none
  pub no_lease : s.lease_until ≡ none
  pub next_version : s.version ≡ q.version + 1
  pub written_at : s.updated_at ≡ now
  pub same_id : s.id ≡ q.id
  pub same_input : s.input ≡ q.input
  pub same_fingerprint : s.fingerprint ≡ q.fingerprint
  pub same_state : s.state ≡ q.state
  pub same_next_attempt : s.next_attempt_at ≡ q.next_attempt_at
  pub same_attempts : s.attempt_count ≡ q.attempt_count
  pub same_failures : s.failure_count ≡ q.failure_count
  pub same_code : s.last_error_code ≡ q.last_error_code
  pub same_confirmed : s.transport_confirmed_at ≡ q.transport_confirmed_at
  pub same_replay : s.manual_replay_request_id ≡ q.manual_replay_request_id
  pub same_replay_version : s.manual_replay_version ≡ q.manual_replay_version
  pub same_created : s.created_at ≡ q.created_at

-- The table `u` is `t` with the columns that `set` gives in the row `r` of `id`, released, and no
-- other row changed.
pub record WritesRow (now : ℕ) (set : Row → Row) (id : ℕ) (r : Row) (t u : Table) : Type 0 where
  pub row : Row
  pub stored : find_row id u.rows ≡ some row
  pub is_released : IsReleased now (set r) row
  pub others : (j : ℕ) → j ≢ id → find_row j u.rows ≡ find_row j t.rows
  pub same_counter : u.next_id ≡ t.next_id

released-IsReleased : (now : ℕ) (q : Row) → IsReleased now q (released now q)
released-IsReleased now q = record {
  no_token = refl;
  no_lease = refl;
  next_version = refl;
  written_at = refl;
  same_id = refl;
  same_input = refl;
  same_fingerprint = refl;
  same_state = refl;
  same_next_attempt = refl;
  same_attempts = refl;
  same_failures = refl;
  same_code = refl;
  same_confirmed = refl;
  same_replay = refl;
  same_replay_version = refl;
  same_created = refl;
}

-- On a table with sound keys, a conditional write of columns other than the key that the database
-- answers either is presented by the holder of a row's unexpired lease, and then succeeds: the row
-- has the columns set, no token and no lease, the next version and the write's time, and no other row
-- changes. Or nobody holds a row by the claim, and it is refused as stale and changes nothing.
pub update_outcome :
    (now : ℕ) (c : Claim) (set : Row → Row) (t : Table)
    → IsTable t
    → KeepsId set
    → ((h : IsHolder now c t) × (u : Table) × (update now answered c set t ≡ (ok tt, u))
        × WritesRow now set h.id h.row t u)
      ⊎ ((¬ IsHolder now c t) × (update now answered c set t ≡ (err stale_claim, t)))
update_outcome now c set t keyed keeps_id = elim (update_cases now c set t keyed) [
  | inr (none_holds, e) ↦ inr (none_holds, e)
  | inl (h, e) ↦
      let holds = IsHeld-claim_holds now c h.row h.until h.held in
      let at = λ (j : ℕ).
        find_row-update_row h.id j (claim_holds now c) (λ r. released now (set r)) t.rows
          (λ r. keeps_id r) in
      inl (
        h,
        written now c set t keyed h.id,
        e,
        record {
          row = released now (set h.row);
          stored = at h.id ∙ rw h.found (ground arith);
          is_released = released-IsReleased now (set h.row);
          others = λ j other. at j ∙ ground arith;
          same_counter = refl;
        },
      )
]
