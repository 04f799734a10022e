-- ===== src/Storage/Mysql/Granting.antt =====
-- storage/mysql/store.go: how `ClaimDue` ends, and the rows that it leaves as they are.
use reliable_messaging.Base.{
  ℕ, ◌≤◌, Bool, true, List, [], ◌∷◌, some, ◌≡◌, ◌≢◌, refl, arith, All, Bool-cases, inl, inr, ◌⊎◌,
  ok, err, sym, ◌∙◌, length,
}
use mathlib.Core.Path.{subst}
use reliable_messaging.Env.{Env}
use reliable_messaging.Base.Int.{ℤ, pos_part}
use reliable_messaging.Outbox.{Claim, StoreError, invalid_arguments, driver_error}
use reliable_messaging.Storage.Mysql.Rows.{Row, Table, Reply, find_row, is_applied}
use reliable_messaging.Storage.Mysql.Claim.{
  ClaimIo, Claimed, claim_rows, claim_due, commit_claims, select_due, limits_invalid,
}
use reliable_messaging.Storage.Mysql.Claiming.{blocked}
use reliable_messaging.Storage.Mysql.Selection.{All-fst, DueNow, IsDue, select_due_sound}
use reliable_messaging.Storage.Mysql.Claims.{
  IsSettled, IsGranted, claim_rows_settles, find_row-claim_rows, length-claim_rows,
}
use reliable_messaging.Storage.Mysql.Keys.{IsTable}

commit_claims-eq-ok :
    (reply : Reply) (t u : Table) (x : Claimed) (cs : List Claim)
    → commit_claims reply t x ≡ (ok cs, u)
    → (out : List Row) × (x ≡ ok (out, cs)) × (u ≡ record t { rows = out })
commit_claims-eq-ok reply t u (err e) cs h = cc
commit_claims-eq-ok reply t u (ok (rows, ds)) cs h = (rows, ground arith, ground arith)

module _ (env : Env) (io : ClaimIo) (now : ℕ) (locked : ℕ → Bool) (limit lease : ℤ)
    (t : Table) where
  abbrev pub candidates : List Row
  candidates = select_due now locked (pos_part limit) t.rows

  abbrev pub run_loop : Claimed
  run_loop = claim_rows env io now (pos_part lease) 0 candidates t.rows

  -- `ClaimDue` fails before it writes, or is the commit of its loop.
  pub claim_due_cases :
      ((e : StoreError) × (claim_due env io now locked limit lease t ≡ (err e, t)))
      ⊎ (claim_due env io now locked limit lease t ≡ commit_claims io.commit_reply t run_loop)
  unfolding claim_due
  claim_due_cases = elim (Bool-cases (limits_invalid limit lease)) [
    | inl bad ↦ inl (invalid_arguments, rw bad)
    | inr good ↦ elim (Bool-cases (blocked io)) [
      | inl stop ↦ inl (driver_error, rw (good, stop))
      | inr go ↦ inr (rw (good, go))
    ]
  ]

  pub claim_due-eq-ok :
      (cs : List Claim) (u : Table)
      → claim_due env io now locked limit lease t ≡ (ok cs, u)
      → (out : List Row) × (run_loop ≡ ok (out, cs)) × (u ≡ record t { rows = out })
  claim_due-eq-ok cs u h = elim claim_due_cases [
    | inl (e, f) ↦ cc
    | inr f ↦ commit_claims-eq-ok io.commit_reply t u run_loop cs (sym f ∙ h)
  ]

  -- What the selection's rows satisfied before the call.
  abbrev pub WasDue : Row → Type 0
  WasDue r = (find_row r.id t.rows ≡ some r) × IsDue now locked r

  module _ (keyed : IsTable t) where
    -- The claims of a successful `ClaimDue` and what it made of the rows that it selected.
    pub claim_due_settles :
        (cs : List Claim) (u : Table)
        → claim_due env io now locked limit lease t ≡ (ok cs, u)
        → (length cs ≤ pos_part limit)
          × All (IsGranted env io now (pos_part lease) WasDue u.rows) cs
          × All (IsSettled env io now (pos_part lease) u.rows cs) candidates
    claim_due_settles cs u h =
        let (out, e, same) = claim_due-eq-ok cs u h in
        let (few, once, sound) =
          select_due_sound now locked (pos_part limit) t.rows keyed.keyed.distinct in
        let (settled, granted) =
          claim_rows_settles env io now (pos_part lease) WasDue 0 candidates t.rows out cs once
            (All-fst (λ r. find_row r.id t.rows ≡ some r) (IsDue now locked) candidates sound) sound
            e in
        rw same (
          omega (
            arith,
            few,
            length-claim_rows env io now (pos_part lease) 0 candidates t.rows out cs e,
          ),
          granted,
          settled,
        )

    not_selected :
        (id : ℕ) (r : Row) (rs : List Row)
        → find_row id t.rows ≡ some r
        → (¬ DueNow now r) ⊎ (locked id ≡ true)
        → All WasDue rs
        → All (λ s. s.id ≢ id) rs
    not_selected id r [] found idle h = tt
    not_selected id r (s ∷ rs) found idle h = (
      λ e.
          let same : some r ≡ some s =
            sym found ∙ subst (λ k. find_row k t.rows ≡ some s) e h.0.0 in
          let one : s ≡ r = cc (same) in
          elim idle [
            | inl early ↦ early (subst (λ x. DueNow now x) one h.0.1.0)
            | inr held ↦ cc (e, h.0.1.1)
          ],
      not_selected id r rs found idle h.1,
    )

    -- On a table with sound keys, a row is left as it is, whatever the outcome of the call, if another
    -- transaction holds it or if it is not due: it neither waits for an attempt whose time has come
    -- nor is publishing on a lease that has ended.
    pub claim_due_skips :
        (id : ℕ) (r : Row)
        → find_row id t.rows ≡ some r
        → (¬ DueNow now r) ⊎ (locked id ≡ true)
        → find_row id (claim_due env io now locked limit lease t).1.rows ≡ some r
    claim_due_skips id r found idle = elim claim_due_cases [
      | inl (e, f) ↦ rw f found
      | inr f ↦ rw f (go run_loop refl)
    ]
      where
        go :
            (x : Claimed)
            → run_loop ≡ x
            → find_row id (commit_claims io.commit_reply t x).1.rows ≡ some r
        go (err e) h = found
        go (ok (out, cs)) h = elim (Bool-cases (is_applied io.commit_reply)) [
          | inr not_done ↦ rw not_done found
          | inl done ↦
              let (few, once, sound) =
                select_due_sound now locked (pos_part limit) t.rows keyed.keyed.distinct in
              rw done (
                find_row-claim_rows env io now (pos_part lease) 0 candidates t.rows out cs id
                  (not_selected id r candidates found idle sound) h
                ∙ found)
        ]
