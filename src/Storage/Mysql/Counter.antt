-- ===== src/Storage/Mysql/Counter.antt =====
-- storage/mysql/store.go: only an INSERT moves the AUTO_INCREMENT counter.
use reliable_messaging.Base.{ℕ, Bool, ◌||◌, ◌≡◌, refl, Bool-cases, inl, inr, ok, err}
use reliable_messaging.Base.Bytes.{Bytes}
use reliable_messaging.Base.Int.{ℤ, pos, leb_ℤ}
use reliable_messaging.Env.{Env}
use reliable_messaging.Outbox.{Claim}
use reliable_messaging.Storage.Mysql.Rows.{Row, Table, Reply, is_applied}
use reliable_messaging.Storage.Mysql.Write.{
  update, write_row, confirm, retry, quarantine, set_confirmed, set_retry, set_quarantined,
  bad_code,
}
use reliable_messaging.Storage.Mysql.Claim.{ClaimIo, Claimed, claim_due, commit_claims}
use reliable_messaging.Storage.Mysql.History.{update_cases}
use reliable_messaging.Storage.Mysql.Granting.{claim_due_cases, run_loop}

update-next_id :
    (now : ℕ) (reply : Reply) (c : Claim) (set : Row → Row) (t : Table)
    → (update now reply c set t).1.next_id ≡ t.next_id
unfolding write_row
update-next_id now reply c set t = elim (update_cases now reply c set t) [
  | inl same ↦ rw same
  | inr (key, _, e) ↦
      rw e
        (elim (Bool-cases (is_applied reply)) [ inl done ↦ rw done | inr not_done ↦ rw not_done ])
]

pub confirm-next_id :
    (now : ℕ) (reply : Reply) (c : Claim) (t : Table)
    → (confirm now reply c t).1.next_id ≡ t.next_id
unfolding confirm
confirm-next_id now reply c t = update-next_id now reply c (set_confirmed now) t

pub retry-next_id :
    (now : ℕ) (reply : Reply) (c : Claim) (delay : ℤ) (code : Bytes) (t : Table)
    → (retry now reply c delay code t).1.next_id ≡ t.next_id
unfolding retry
retry-next_id now reply c delay code t = elim (Bool-cases (leb_ℤ delay (pos 0) || bad_code code)) [
  | inl bad ↦ rw bad
  | inr good ↦ rw good (update-next_id now reply c (set_retry now delay code) t)
]

pub quarantine-next_id :
    (now : ℕ) (reply : Reply) (c : Claim) (code : Bytes) (t : Table)
    → (quarantine now reply c code t).1.next_id ≡ t.next_id
unfolding quarantine
quarantine-next_id now reply c code t = elim (Bool-cases (bad_code code)) [
  | inl bad ↦ rw bad
  | inr good ↦ rw good (update-next_id now reply c (set_quarantined code) t)
]

commit_claims-next_id :
    (reply : Reply) (t : Table) (x : Claimed) → (commit_claims reply t x).1.next_id ≡ t.next_id
commit_claims-next_id reply t (err e) = refl
commit_claims-next_id reply t (ok (rows, cs)) = elim (Bool-cases (is_applied reply)) [
  | inl done ↦ rw done
  | inr not_done ↦ rw not_done
]

pub claim_due-next_id :
    (env : Env) (io : ClaimIo) (now : ℕ) (locked : ℕ → Bool) (limit lease : ℤ) (t : Table)
    → (claim_due env io now locked limit lease t).1.next_id ≡ t.next_id
claim_due-next_id env io now locked limit lease t =
    elim (claim_due_cases env io now locked limit lease t) [
      | inl (e, f) ↦ rw f
      | inr f ↦
          rw f (commit_claims-next_id io.commit_reply t (run_loop env io now locked limit lease t))
    ]
