-- ===== src/Storage/Mysql/Superseded.antt =====
-- storage/mysql/store.go: once a row's version has passed a claim's, or a write of the claim has
-- succeeded, the claim is stale for good.
use reliable_messaging.Base.{ℕ, ◌<◌, List, some, ◌≡◌, arith, inl, inr, ok, err, sym, ◌∙◌}
use mathlib.Core.Path.{subst}
use reliable_messaging.Env.{Env}
use reliable_messaging.Outbox.{Claim, stale_claim}
use reliable_messaging.Storage.Mysql.Rows.{Row, Table, answered, find_row}
use reliable_messaging.Storage.Mysql.Append.{record_number}
use reliable_messaging.Storage.Mysql.Write.{update, released, claim_holds}
use reliable_messaging.Storage.Mysql.Table.{find_row-update_row, KeepsId}
use reliable_messaging.Storage.Mysql.Keys.{IsTable, update_row-Keyed, run_all-IsTable}
use reliable_messaging.Storage.Mysql.Operations.{Op, run_all}
use reliable_messaging.Storage.Mysql.History.{run_all-Grows}
use reliable_messaging.Storage.Mysql.Fencing.{IsHolder, IsHeld-claim_holds, update_cases, written}

stale_outcome :
    (now : ℕ) (c : Claim) (set : Row → Row) (t : Table)
    → IsTable t
    → ¬ IsHolder now c t
    → update now answered c set t ≡ (err stale_claim, t)
stale_outcome now c set t keyed not_holder = elim (update_cases now c set t keyed) [
  | inl (h, _) ↦ absurd (not_holder h)
  | inr (_, e) ↦ e
]

-- On a table with sound keys, a claim whose version lies below that of its row is refused, after any further operations at any
-- times, and the refusal changes nothing.
pub superseded_stale :
    (env : Env) (ops : List Op) (t : Table) (c : Claim) (id : ℕ) (r : Row)
    → IsTable t
    → record_number c.record_id ≡ some id
    → find_row id t.rows ≡ some r
    → c.version < r.version
    → (now : ℕ) (set : Row → Row)
    → update now answered c set (run_all env ops t) ≡ (err stale_claim, run_all env ops t)
superseded_stale env ops t c id r keyed names found above now set =
    let u = run_all env ops t in
    let (s, later, grown) = run_all-Grows env ops t id r found in
    stale_outcome now c set u (run_all-IsTable env ops t keyed) (λ h.
      let same : id ≡ h.id = cc (names, h.names) in
      let e : some h.row ≡ some s =
        sym h.found ∙ subst (λ k. find_row k u.rows ≡ some s) same later in
      let v : h.row.version ≡ s.version = cc (e) in
      omega (arith, v, h.held.same_version, grown.version_grows))

-- A claim is good for one write. On a table with sound keys, after a conditional write that sets
-- other columns than the key and the version has succeeded, every later write of the claim is refused as stale, whatever operations
-- ran in between.
pub write_once :
    (env : Env) (ops : List Op) (t : Table) (c : Claim) (now : ℕ) (set : Row → Row)
    → IsTable t
    → KeepsId set
    → ((r : Row) → (set r).version ≡ r.version)
    → (update now answered c set t).0 ≡ ok tt
    → (now' : ℕ) (set' : Row → Row)
    → let u = run_all env ops (update now answered c set t).1 in
      update now' answered c set' u ≡ (err stale_claim, u)
write_once env ops t c now set keyed keeps_id keeps_version wrote now' set' =
    elim (update_cases now c set t keyed) [
      | inr (_, e) ↦ cc
      | inl (h, e) ↦
          let t' = written now c set t keyed h.id in
          let holds = IsHeld-claim_holds now c h.row h.until h.held in
          let after : find_row h.id t'.rows ≡ some (released now (set h.row)) =
            find_row-update_row h.id h.id (claim_holds now c) (λ r. released now (set r)) t.rows
              (λ r. keeps_id r)
            ∙ rw h.found (ground arith) in
          let kept : IsTable t' = record {
            keyed =
                update_row-Keyed t.next_id h.id (claim_holds now c) (λ r. released now (set r))
                  t.rows (λ r. keeps_id r) keyed.keyed;
            next_pos = keyed.next_pos;
          } in
          rw e (
            superseded_stale env ops t' c h.id (released now (set h.row)) kept h.names after
              (omega (arith, keeps_version h.row, h.held.same_version)) now' set')
    ]
