-- ===== src/Storage/Mysql/Claims.antt =====
-- storage/mysql/store.go: what `ClaimDue` grants, what it does with the rows that it selected, and
-- that it leaves alone all others.
use reliable_messaging.Base.{
  Any, ℕ, suc, ◌≤◌, true, List, [], ◌∷◌, some, ◌≡◌, ◌≢◌, refl, arith, All, Bool-cases, inl, inr, ok,
  sym, ◌∙◌, length,
}
use mathlib.Core.Path.{subst}
use reliable_messaging.Env.{Env}
use reliable_messaging.Base.Bytes.{Bytes}
use reliable_messaging.Outbox.{Claim}
use reliable_messaging.Storage.Mysql.Rows.{Row, find_row, update_row}
use reliable_messaging.Storage.Mysql.Claim.{
  ClaimIo, claim_rows, claim_for, set_candidate, intact, same_version,
}
use reliable_messaging.Storage.Mysql.Claiming.{quarantines, claims, claim_rows-Round}
use reliable_messaging.Storage.Mysql.Table.{find_row-update_row}
use reliable_messaging.Storage.Mysql.Selection.{OnceEach}

module _ (env : Env) (io : ClaimIo) (now lease : ℕ) where
  -- A candidate is written at its place in the loop: claimed, with its claim among those returned,
  -- if its content is intact, and quarantined if not.
  pub record IsSettled (out : List Row) (cs : List Claim) (r : Row) : Type 0 where
    pub at_place : ℕ
    pub stored : find_row r.id out ≡ some (set_candidate env io now lease at_place r r)
    pub returned : intact env r ≡ true → Any (λ c. c ≡ claim_for env io now lease at_place r) cs

  -- A claim stands for one candidate of intact content, with a token of fresh random bytes.
  pub record IsGranted (P : Row → Type 0) (out : List Row) (c : Claim) : Type 0 where
    pub place : ℕ
    pub row : Row
    pub candidate : P row
    pub content : intact env row ≡ true
    pub random : Bytes
    pub drawn : io.entropy place ≡ some random
    pub claim_lem : c ≡ claim_for env io now lease place row
    pub kept : find_row row.id out ≡ some (set_candidate env io now lease place row row)

  abbrev rows_after : ℕ → Row → List Row → List Row
  rows_after k r rows =
      update_row r.id (same_version r.version) (set_candidate env io now lease k r) rows

  pub set_candidate-id : (k : ℕ) (r q : Row) → (set_candidate env io now lease k r q).id ≡ q.id
  set_candidate-id k r q = elim (Bool-cases (intact env r)) [ inl g ↦ rw g | inr b ↦ rw b ]

  find_row-rows_after_ne :
      (k : ℕ) (r : Row) (rows : List Row) (j : ℕ)
      → j ≢ r.id
      → find_row j (rows_after k r rows) ≡ find_row j rows
  find_row-rows_after_ne k r rows j ne =
      find_row-update_row r.id j (same_version r.version) (set_candidate env io now lease k r) rows
        (set_candidate-id k r)
      ∙ ground arith

  find_row-rows_after_self :
      (k : ℕ) (r : Row) (rows : List Row)
      → find_row r.id rows ≡ some r
      → find_row r.id (rows_after k r rows) ≡ some (set_candidate env io now lease k r r)
  find_row-rows_after_self k r rows h =
      find_row-update_row r.id r.id (same_version r.version) (set_candidate env io now lease k r)
        rows (set_candidate-id k r)
      ∙ rw h (ground arith)

  pub find_row-claim_rows :
      (k : ℕ) (rs rows out : List Row) (cs : List Claim) (j : ℕ)
      → All (λ s. s.id ≢ j) rs
      → claim_rows env io now lease k rs rows ≡ ok (out, cs)
      → find_row j out ≡ find_row j rows
  find_row-claim_rows k [] rows out cs j ne h = let e : rows ≡ out = unfold claim_rows in cc in rw e
  find_row-claim_rows k (r ∷ rs) rows out cs j ne h =
      let first = find_row-rows_after_ne k r rows j (λ e. ne.0 (sym e)) in
      elim (claim_rows-Round env io now lease k r rs rows out cs h) [
        | quarantines _ e ↦
            find_row-claim_rows (suc k) rs (rows_after k r rows) out cs j ne.1 e ∙ first
        | claims bs ds _ _ _ e ↦
            find_row-claim_rows (suc k) rs (rows_after k r rows) out ds j ne.1 e ∙ first
      ]

  still_stored :
      (k : ℕ) (r : Row) (rs rows : List Row)
      → All (λ s. s.id ≢ r.id) rs
      → All (λ s. find_row s.id rows ≡ some s) rs
      → All (λ s. find_row s.id (rows_after k r rows) ≡ some s) rs
  still_stored k r [] rows ne h = tt
  still_stored k r (s ∷ rs) rows ne h =
      (find_row-rows_after_ne k r rows s.id ne.0 ∙ h.0, still_stored k r rs rows ne.1 h.1)

  widen :
      (out : List Row) (c : Claim) (cs : List Claim) (rs : List Row)
      → All (IsSettled out cs) rs
      → All (IsSettled out (c ∷ cs)) rs
  widen out c cs [] h = tt
  widen out c cs (r ∷ rs) h = (
    record { at_place = h.0.at_place; stored = h.0.stored; returned = λ i. inr (h.0.returned i) },
    widen out c cs rs h.1,
  )

  pub claim_rows_settles :
      (P : Row → Type 0) (k : ℕ) (rs rows out : List Row) (cs : List Claim)
      → OnceEach rs
      → All (λ r. find_row r.id rows ≡ some r) rs
      → All P rs
      → claim_rows env io now lease k rs rows ≡ ok (out, cs)
      → All (IsSettled out cs) rs × All (IsGranted P out) cs
  claim_rows_settles P k [] rows out cs once found p h =
      let e : [] ≡ cs = unfold claim_rows in cc in (tt, subst (λ x. All (IsGranted P out) x) e tt)
  claim_rows_settles P k (r ∷ rs) rows out cs once found p h =
      let rows' = rows_after k r rows in
      let found' = still_stored k r rs rows once.0 found.1 in
      let own = find_row-rows_after_self k r rows found.0 in
      elim (claim_rows-Round env io now lease k r rs rows out cs h) [
        | quarantines bad e ↦
            let (settled, granted) =
              claim_rows_settles P (suc k) rs rows' out cs once.1 found' p.1 e in
            let last = find_row-claim_rows (suc k) rs rows' out cs r.id once.0 e ∙ own in
            ((record { at_place = k; stored = last; returned = λ i. cc }, settled), granted)
        | claims bs ds good drawn split e ↦
            let (settled, granted) =
              claim_rows_settles P (suc k) rs rows' out ds once.1 found' p.1 e in
            let last = find_row-claim_rows (suc k) rs rows' out ds r.id once.0 e ∙ own in
            subst (λ x. All (IsSettled out x) (r ∷ rs) × All (IsGranted P out) x) (sym split)
              (
                (
                  record { at_place = k; stored = last; returned = λ i. inl refl },
                  widen out (claim_for env io now lease k r) ds rs settled,
                ),
                (
                  record {
                    place = k;
                    row = r;
                    candidate = p.0;
                    content = good;
                    random = bs;
                    drawn = drawn;
                    claim_lem = refl;
                    kept = last;
                  },
                  granted,
                ),
              )
      ]

  pub length-claim_rows :
      (k : ℕ) (rs rows out : List Row) (cs : List Claim)
      → claim_rows env io now lease k rs rows ≡ ok (out, cs)
      → length cs ≤ length rs
  length-claim_rows k [] rows out cs h =
      let e : [] ≡ cs = unfold claim_rows in cc in subst (λ x. length x ≤ 0) e (omega arith)
  length-claim_rows k (r ∷ rs) rows out cs h =
      elim (claim_rows-Round env io now lease k r rs rows out cs h) [
        | quarantines _ e ↦
            omega (arith, length-claim_rows (suc k) rs (rows_after k r rows) out cs e)
        | claims bs ds _ _ split e ↦
            subst (λ x. length x ≤ suc (length rs)) (sym split)
              (omega (arith, length-claim_rows (suc k) rs (rows_after k r rows) out ds e))
      ]
