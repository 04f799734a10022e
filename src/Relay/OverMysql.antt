-- ===== src/Relay/OverMysql.antt =====
-- relay/relay.go over storage/mysql/store.go: the relay with the MySQL store as its store.
use reliable_messaging.Base.{
  ℕ, suc, ◌≤◌, Bool, List, [], ◌∷◌, ◌≡◌, ◌≢◌, sym, ◌∙◌, ap, All, arith, some, Result, ok,
}
use mathlib.Core.Path.{subst}
use reliable_messaging.Base.Bytes.{u64_mod}
use reliable_messaging.Base.Int.{ℤ, pos_part}
use reliable_messaging.Env.{Env}
use reliable_messaging.Message.{Input}
use reliable_messaging.Outbox.{Claim, StoreError}
use reliable_messaging.Storage.Mysql.Rows.{Row, Table, Reply, find_row}
use reliable_messaging.Storage.Mysql.Append.{record_number}
use reliable_messaging.Storage.Mysql.Write.{confirm, retry, quarantine}
use reliable_messaging.Storage.Mysql.Claim.{ClaimIo, claim_due, set_candidate}
use reliable_messaging.Storage.Mysql.Growth.{Writes, Writes-Grows}
use reliable_messaging.Storage.Mysql.Keys.{IsTable, Writes-IsTable}
use reliable_messaging.Storage.Mysql.History.{confirm-Writes, retry-Writes, quarantine-Writes}
use reliable_messaging.Storage.Mysql.Claiming.{claim_due-Writes}
use reliable_messaging.Storage.Mysql.Claims.{IsGranted}
use reliable_messaging.Storage.Mysql.Granting.{WasDue, claim_due_settles}
use reliable_messaging.Storage.Mysql.Lease.{granted-names, granted-content}
use reliable_messaging.Storage.Mysql.Unpublished.{
  IsOpen, confirm-IsOpen, retry-IsOpen, quarantine-IsOpen, claim_due-IsOpen,
}
use reliable_messaging.Storage.Mysql.Counter.{
  confirm-next_id, retry-next_id, quarantine-next_id, claim_due-next_id,
}
use reliable_messaging.Relay.{Store, Config, Tick, run}
use reliable_messaging.Relay.Runs.{Rules, IsAllowed, run-keeps}

-- What one call of the store meets: the clock, the answers of the database, the locks of others.
pub record Answer : Type 0 where
  pub now : ℕ
  pub reply : Reply
  pub io : ClaimIo
  pub locked : ℕ → Bool

-- The table, and the answers to the calls to come; `step` counts the calls.
pub record World : Type 0 where
  pub table : Table
  pub answers : ℕ → Answer
  pub step : ℕ

abbrev pub answer : World → Answer
answer w = w.answers w.step

abbrev pub moved : World → Table → World
moved w t = record w { table = t; step = suc w.step }

-- `mysql.Store` as an `outbox.Store`.
abbrev pub mysql_store : Env → Store World
mysql_store env = record {
  claim_due = λ limit lease w.
      let (r, t) =
        claim_due env (answer w).io (answer w).now (answer w).locked limit lease w.table in
      (r, moved w t);
  confirm = λ c w. let (r, t) = confirm (answer w).now (answer w).reply c w.table in (r, moved w t);
  retry = λ c d code w.
      let (r, t) = retry (answer w).now (answer w).reply c d code w.table in (r, moved w t);
  quarantine = λ c code w.
      let (r, t) = quarantine (answer w).now (answer w).reply c code w.table in (r, moved w t);
}

-- The claim names a row of the claim's content.
pub record IsNamed (c : Claim) (w : World) : Type 0 where
  pub id : ℕ
  pub row : Row
  pub names : record_number c.record_id ≡ some id
  pub stored : find_row id w.table.rows ≡ some row
  pub content : row.input ≡ c.message.input

-- The keys of the table are sound and fit into 64 bits, and the row of the id, of content `m`, is
-- unpublished.
pub record IsWaiting (id : ℕ) (m : Input) (w : World) : Type 0 where
  pub keyed : IsTable w.table
  pub small : w.table.next_id ≤ u64_mod
  pub unpublished : IsOpen id m w.table.rows

module _ (id : ℕ) (m : Input) where
  -- A claim of other content.
  abbrev pub IsOther : Claim → Type 0
  IsOther c = c.message.input ≢ m

  Writes-IsNamed :
      (c : Claim) (w : World) (t : Table) → Writes w.table t → IsNamed c w → IsNamed c (moved w t)
  Writes-IsNamed c w t ws h =
      let (s, later, grown) = Writes-Grows ws h.id h.row h.stored in
      record {
        id = h.id;
        row = s;
        names = h.names;
        stored = later;
        content = grown.same_input ∙ h.content;
      }

  moved-IsWaiting :
      (w : World) (t : Table)
      → Writes w.table t
      → t.next_id ≡ w.table.next_id
      → IsOpen id m t.rows
      → IsWaiting id m w
      → IsWaiting id m (moved w t)
  moved-IsWaiting w t ws same o k = record {
    keyed = Writes-IsTable ws k.keyed;
    small = omega (arith, k.small, same);
    unpublished = o;
  }

  other-names :
      (c : Claim) (w : World)
      → IsOther c
      → IsNamed c w
      → IsWaiting id m w
      → record_number c.record_id ≢ some id
  other-names c w other h k e =
      let same : h.id ≡ id = cc (h.names, e) in
      let own : find_row id w.table.rows ≡ some h.row =
        subst (λ i. find_row i w.table.rows ≡ some h.row) same h.stored in
      let row : h.row ≡ k.unpublished.row = cc (own, k.unpublished.stored) in
      other (sym h.content ∙ ap (λ (r : Row). r.input) row ∙ k.unpublished.content)

  module _ (env : Env) where
    -- The claims that `ClaimDue` returns name their rows.
    granted-IsNamed :
        (w w' : World) (limit lease : ℤ) (P : Row → Type 0) (cs : List Claim)
        → IsTable w'.table
        → w'.table.next_id ≤ u64_mod
        → All (IsGranted env (answer w).io (answer w).now (pos_part lease) P w'.table.rows) cs
        → All (λ c. IsNamed c w') cs
    granted-IsNamed w w' limit lease P [] keyed small g = tt
    granted-IsNamed w w' limit lease P (c ∷ cs) keyed small g = (
      record {
        id = g.0.row.id;
        row =
            set_candidate env (answer w).io (answer w).now (pos_part lease) g.0.place g.0.row
              g.0.row;
        names = granted-names env (answer w).io (answer w).now lease w'.table keyed small P c g.0;
        stored = g.0.kept;
        content =
            granted-content env (answer w).io (answer w).now lease w'.table keyed small P c g.0;
      },
      granted-IsNamed w w' limit lease P cs keyed small g.1,
    )

    claim_keeps :
        (limit lease : ℤ) (w : World)
        → IsWaiting id m w
        → IsWaiting id m ((mysql_store env).claim_due limit lease w).1
    claim_keeps limit lease w k =
        let a = answer w in
        moved-IsWaiting w _ (claim_due-Writes env a.io a.now a.locked limit lease w.table)
          (claim_due-next_id env a.io a.now a.locked limit lease w.table)
          (claim_due-IsOpen id m env a.io a.now a.locked limit lease w.table k.unpublished) k

    claim_grants :
        (limit lease : ℤ) (w w' : World) (cs : List Claim)
        → IsWaiting id m w
        → (mysql_store env).claim_due limit lease w ≡ (ok cs, w')
        → All (λ c. IsNamed c w') cs
    claim_grants limit lease w w' cs k e =
        let a = answer w in
        let after : IsWaiting id m w' =
          subst (λ x. IsWaiting id m x.1) e (claim_keeps limit lease w k) in
        let table : claim_due env a.io a.now a.locked limit lease w.table ≡ (ok cs, w'.table) =
          ap (λ (x : Result StoreError (List Claim) × World). (x.0, x.1.table)) e in
        granted-IsNamed w w' limit lease (WasDue env a.io a.now a.locked limit lease w.table) cs
          after.keyed after.small
          (claim_due_settles env a.io a.now a.locked limit lease w.table k.keyed cs w'.table
            table).1

    mysql-Rules : Rules (mysql_store env) (IsWaiting id m) IsNamed IsOther
    mysql-Rules = record {
      claim_keeps = claim_keeps;
      claim_grants = claim_grants;
      confirm_keeps = λ c w other h k.
          moved-IsWaiting w _ (confirm-Writes (answer w).now (answer w).reply c w.table)
            (confirm-next_id (answer w).now (answer w).reply c w.table)
            (confirm-IsOpen id m (answer w).now (answer w).reply c w.table
              (other-names c w other h k) k.unpublished)
            k;
      retry_keeps = λ c d code w h k.
          moved-IsWaiting w _ (retry-Writes (answer w).now (answer w).reply c d code w.table)
            (retry-next_id (answer w).now (answer w).reply c d code w.table)
            (retry-IsOpen id m (answer w).now (answer w).reply c d code w.table k.unpublished) k;
      quarantine_keeps = λ c code w h k.
          moved-IsWaiting w _ (quarantine-Writes (answer w).now (answer w).reply c code w.table)
            (quarantine-next_id (answer w).now (answer w).reply c code w.table)
            (quarantine-IsOpen id m (answer w).now (answer w).reply c code w.table k.unpublished) k;
      confirm_usable =
          λ c d w. Writes-IsNamed d w _ (confirm-Writes (answer w).now (answer w).reply c w.table);
      retry_usable = λ c d delay code w.
          Writes-IsNamed d w _ (retry-Writes (answer w).now (answer w).reply c delay code w.table);
      quarantine_usable = λ c d code w.
          Writes-IsNamed d w _ (quarantine-Writes (answer w).now (answer w).reply c code w.table);
    }

    -- A message is marked as published only on the publisher's word. If in every round the publisher
    -- confirms no message of the row's content, and the other processes leave the row unpublished and
    -- the named rows in place, then after any run of the relay over the MySQL store, whatever the
    -- database answers, the row is still unpublished and holds its content.
    pub run-IsWaiting :
        (config : Config) (running : Bool) (ts : List (Tick World)) (w : World)
        → All (IsAllowed (IsWaiting id m) IsNamed IsOther) ts
        → IsWaiting id m w
        → IsWaiting id m (run (mysql_store env) config running ts w).2
    run-IsWaiting config running ts w allowed k =
        run-keeps (mysql_store env) config (IsWaiting id m) IsNamed IsOther mysql-Rules running ts w
          allowed k
