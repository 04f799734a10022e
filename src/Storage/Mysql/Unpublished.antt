-- ===== src/Storage/Mysql/Unpublished.antt =====
-- storage/mysql/store.go: only `Confirm` publishes a row, and only the row that the claim names.
use reliable_messaging.Base.{
  ℕ, Bool, ◌&&◌, ◌||◌, List, [], ◌∷◌, some, ◌≡◌, ◌≢◌, refl, arith, ◌==◌, suc, Bool-cases, inl, inr,
  ok, err, ◌∙◌,
}
use mathlib.Core.Path.{subst}
use reliable_messaging.Base.Bytes.{Bytes}
use reliable_messaging.Base.Int.{ℤ, pos, leb_ℤ, pos_part}
use reliable_messaging.Env.{Env}
use reliable_messaging.Message.{Input}
use reliable_messaging.Outbox.{Claim}
use reliable_messaging.Storage.Mysql.Rows.{
  Row, Table, Reply, find_row, update_row, published, is_applied,
}
use reliable_messaging.Storage.Mysql.Append.{record_number}
use reliable_messaging.Storage.Mysql.Write.{
  write_row, update, confirm, retry, quarantine, released, claim_holds, set_confirmed, set_retry,
  set_quarantined, bad_code,
}
use reliable_messaging.Storage.Mysql.Claim.{
  ClaimIo, Claimed, claim_rows, claim_due, commit_claims, set_candidate, same_version, intact,
  select_due,
}
use reliable_messaging.Storage.Mysql.Claiming.{quarantines, claims, claim_rows-Round}
use reliable_messaging.Storage.Mysql.Table.{KeepsId, find_row-update_row}
use reliable_messaging.Storage.Mysql.History.{update_cases}
use reliable_messaging.Storage.Mysql.Granting.{claim_due_cases}

-- The row of the id holds the content and is not published.
pub record IsOpen (id : ℕ) (m : Input) (rows : List Row) : Type 0 where
  pub row : Row
  pub stored : find_row id rows ≡ some row
  pub not_published : row.state ≢ published
  pub content : row.input ≡ m

-- An assignment that keeps the key and the content, and does not publish.
record Calm (f : Row → Row) : Type 0 where
  keeps_id : KeepsId f
  keeps_input : (r : Row) → (f r).input ≡ r.input
  unpublished : (r : Row) → (f r).state ≢ published

module _ (id : ℕ) (m : Input) where
  update_row-IsOpen :
      (key : ℕ) (test : Row → Bool) (f : Row → Row) (rows : List Row)
      → Calm f
      → IsOpen id m rows
      → IsOpen id m (update_row key test f rows)
  update_row-IsOpen key test f rows calm o =
      let found = find_row-update_row key id test f rows calm.keeps_id in
      elim (Bool-cases (id == key && test o.row)) [
        | inl hit ↦ record {
          row = f o.row;
          stored = found ∙ rw o.stored (ground arith);
          not_published = calm.unpublished o.row;
          content = calm.keeps_input o.row ∙ o.content;
        }
        | inr miss ↦ record {
          row = o.row;
          stored = found ∙ rw o.stored (ground arith);
          not_published = o.not_published;
          content = o.content;
        }
      ]

  -- An update of another row.
  update_row_ne-IsOpen :
      (key : ℕ) (test : Row → Bool) (f : Row → Row) (rows : List Row)
      → KeepsId f
      → id ≢ key
      → IsOpen id m rows
      → IsOpen id m (update_row key test f rows)
  update_row_ne-IsOpen key test f rows keep ne o = record {
    row = o.row;
    stored = find_row-update_row key id test f rows keep ∙ ground (arith, o.stored);
    not_published = o.not_published;
    content = o.content;
  }

  update-IsOpen :
      (now : ℕ) (reply : Reply) (c : Claim) (set : Row → Row) (t : Table)
      → Calm (λ r. released now (set r))
      → IsOpen id m t.rows
      → IsOpen id m (update now reply c set t).1.rows
  unfolding write_row
  update-IsOpen now reply c set t calm o = elim (update_cases now reply c set t) [
    | inl same ↦ rw same o
    | inr (key, _, e) ↦ rw e (elim (Bool-cases (is_applied reply)) [
      | inl done ↦
          rw done
            (update_row-IsOpen key (claim_holds now c) (λ r. released now (set r)) t.rows calm o)
      | inr not_done ↦ rw not_done o
    ])
  ]

  pub retry-IsOpen :
      (now : ℕ) (reply : Reply) (c : Claim) (delay : ℤ) (code : Bytes) (t : Table)
      → IsOpen id m t.rows
      → IsOpen id m (retry now reply c delay code t).1.rows
  unfolding retry
  retry-IsOpen now reply c delay code t o =
      let calm : Calm (λ r. released now (set_retry now delay code r)) = record {
        keeps_id = λ r. refl;
        keeps_input = λ r. refl;
        unpublished = λ r. ground arith;
      } in
      elim (Bool-cases (leb_ℤ delay (pos 0) || bad_code code)) [
        | inl bad ↦ rw bad o
        | inr good ↦ rw good (update-IsOpen now reply c (set_retry now delay code) t calm o)
      ]

  pub quarantine-IsOpen :
      (now : ℕ) (reply : Reply) (c : Claim) (code : Bytes) (t : Table)
      → IsOpen id m t.rows
      → IsOpen id m (quarantine now reply c code t).1.rows
  unfolding quarantine
  quarantine-IsOpen now reply c code t o =
      let calm : Calm (λ r. released now (set_quarantined code r)) = record {
        keeps_id = λ r. refl;
        keeps_input = λ r. refl;
        unpublished = λ r. ground arith;
      } in
      elim (Bool-cases (bad_code code)) [
        | inl bad ↦ rw bad o
        | inr good ↦ rw good (update-IsOpen now reply c (set_quarantined code) t calm o)
      ]

  -- A confirmation of a claim that does not name the row.
  pub confirm-IsOpen :
      (now : ℕ) (reply : Reply) (c : Claim) (t : Table)
      → record_number c.record_id ≢ some id
      → IsOpen id m t.rows
      → IsOpen id m (confirm now reply c t).1.rows
  unfolding confirm write_row
  confirm-IsOpen now reply c t other o = elim (update_cases now reply c (set_confirmed now) t) [
    | inl same ↦ rw same o
    | inr (key, named, e) ↦ rw e (elim (Bool-cases (is_applied reply)) [
      | inl done ↦ rw done (
          update_row_ne-IsOpen key (claim_holds now c) (λ r. released now (set_confirmed now r))
            t.rows (λ r. refl) (λ same. other (cc (named, same))) o)
      | inr not_done ↦ rw not_done o
    ])
  ]

  candidate-Calm :
      (env : Env) (io : ClaimIo) (now lease k : ℕ) (r : Row)
      → Calm (set_candidate env io now lease k r)
  candidate-Calm env io now lease k r = elim (Bool-cases (intact env r)) [
    | inl good ↦
        rw good (record {
          keeps_id = λ q. refl;
          keeps_input = λ q. refl;
          unpublished = λ q. ground arith;
        })
    | inr bad ↦
        rw bad (record {
          keeps_id = λ q. refl;
          keeps_input = λ q. refl;
          unpublished = λ q. ground arith;
        })
  ]

  claim_rows-IsOpen :
      (env : Env) (io : ClaimIo) (now lease k : ℕ) (rs rows out : List Row) (cs : List Claim)
      → claim_rows env io now lease k rs rows ≡ ok (out, cs)
      → IsOpen id m rows
      → IsOpen id m out
  claim_rows-IsOpen env io now lease k [] rows out cs h o =
      let e : rows ≡ out = unfold claim_rows in cc in subst (λ x. IsOpen id m x) e o
  claim_rows-IsOpen env io now lease k (r ∷ rs) rows out cs h o =
      let set = set_candidate env io now lease k r in
      let rows' = update_row r.id (same_version r.version) set rows in
      let first =
        update_row-IsOpen r.id (same_version r.version) set rows
          (candidate-Calm env io now lease k r) o in
      elim (claim_rows-Round env io now lease k r rs rows out cs h) [
        | quarantines _ e ↦ claim_rows-IsOpen env io now lease (suc k) rs rows' out cs e first
        | claims bs ds _ _ _ e ↦ claim_rows-IsOpen env io now lease (suc k) rs rows' out ds e first
      ]

  pub claim_due-IsOpen :
      (env : Env) (io : ClaimIo) (now : ℕ) (locked : ℕ → Bool) (limit lease : ℤ) (t : Table)
      → IsOpen id m t.rows
      → IsOpen id m (claim_due env io now locked limit lease t).1.rows
  claim_due-IsOpen env io now locked limit lease t o =
      elim (claim_due_cases env io now locked limit lease t) [
        | inl (e, f) ↦ rw f o
        | inr f ↦ rw f (go _ refl)
      ]
    where
      go :
          (x : Claimed)
          → claim_rows env io now
              (pos_part lease)
              0
              (select_due now locked (pos_part limit) t.rows)
              t.rows
            ≡ x
          → IsOpen id m (commit_claims io.commit_reply t x).1.rows
      go (err e) h = o
      go (ok (out, cs)) h = elim (Bool-cases (is_applied io.commit_reply)) [
        | inl done ↦ rw done (claim_rows-IsOpen env io now (pos_part lease) 0 _ t.rows out cs h o)
        | inr not_done ↦ rw not_done o
      ]
