-- ===== src/Storage/Mysql/Claiming.antt =====
-- storage/mysql/store.go: one round of the loop of `ClaimDue`, and what the loop does to the rows.
use reliable_messaging.Base.{
  ℕ, suc, Bool, true, false, List, [], ◌∷◌, some, ◌≡◌, refl, arith, Bool-cases, Option-cases, inl,
  inr, not, ◌||◌, ok, err,
}
use mathlib.Core.Path.{subst}
use reliable_messaging.Base.Bytes.{Bytes}
use reliable_messaging.Base.Int.{ℤ, pos_part}
use reliable_messaging.Env.{Env}
use reliable_messaging.Outbox.{Claim}
use reliable_messaging.Storage.Mysql.Rows.{Row, Table, Reply, is_answered, is_applied, update_row}
use reliable_messaging.Storage.Mysql.Claim.{
  ClaimIo, Claimed, claim_round, claim_rows, add_claim, claim_for, set_candidate, intact,
  same_version, claim_due, commit_claims, select_due, limits_invalid,
}
use reliable_messaging.Storage.Mysql.Growth.{Evolving, Writes, nothing, updates}

add_claim-eq-ok :
    (c : Claim) (x : Claimed) {rows : List Row} {cs : List Claim}
    → add_claim c x ≡ ok (rows, cs)
    → (ds : List Claim) × (cs ≡ c ∷ ds) × (x ≡ ok (rows, ds))
add_claim-eq-ok c (ok (rows, ds)) h = (ds, cc, cc)
add_claim-eq-ok c (err e) h = cc

module _ (env : Env) (io : ClaimIo) (now lease : ℕ) where
  -- A round that goes through: the candidate is corrupt and quarantined, or intact and claimed with
  -- the random bytes of its place.
  pub data Round (k : ℕ) (r : Row) (rest : Claimed) (out : List Row) (cs : List Claim)
      : Type 0 where
    quarantines : intact env r ≡ false → rest ≡ ok (out, cs) → Round k r rest out cs
    claims :
        (bs : Bytes) (ds : List Claim)
        → intact env r ≡ true
        → io.entropy k ≡ some bs
        → cs ≡ claim_for env io now lease k r ∷ ds
        → rest ≡ ok (out, ds)
        → Round k r rest out cs

  pub claim_round-Round :
      (k : ℕ) (r : Row) (rest : Claimed) (out : List Row) (cs : List Claim)
      → claim_round env io now lease k r rest ≡ ok (out, cs)
      → Round k r rest out cs
  unfolding claim_round
  claim_round-Round k r rest out cs h = elim (Bool-cases (intact env r)) [
    | inl good ↦ elim (Option-cases (io.entropy k)) [
      | inl n ↦ absurd (ground arith)
      | inr (bs, e) ↦
          let got : add_claim (claim_for env io now lease k r) rest ≡ ok (out, cs) = ground arith in
          let (ds, e₁, e₂) = add_claim-eq-ok (claim_for env io now lease k r) rest got in
          claims bs ds good e e₁ e₂
    ]
    | inr bad ↦ quarantines bad (ground arith)
  ]

  pub claim_rows-Round :
      (k : ℕ) (r : Row) (rs rows out : List Row) (cs : List Claim)
      → claim_rows env io now lease k (r ∷ rs) rows ≡ ok (out, cs)
      → Round k r
          (claim_rows env io now lease
            (suc k)
            rs
            (update_row r.id (same_version r.version) (set_candidate env io now lease k r) rows))
          out
          cs
  claim_rows-Round k r rs rows out cs h = claim_round-Round k r _ out cs (unfold claim_rows in h)

  set_candidate-Evolving : (k : ℕ) (r : Row) → Evolving (set_candidate env io now lease k r)
  set_candidate-Evolving k r q = elim (Bool-cases (intact env r)) [
    | inl good ↦ rw good (ground arith)
    | inr bad ↦ rw bad (ground arith)
  ]

  claim_rows-Writes :
      (t : Table) (k : ℕ) (rs rows out : List Row) (cs : List Claim)
      → Writes t (record t { rows = rows })
      → claim_rows env io now lease k rs rows ≡ ok (out, cs)
      → Writes t (record t { rows = out })
  claim_rows-Writes t k [] rows out cs w h =
      let e : rows ≡ out = unfold claim_rows in cc in
      subst (λ x. Writes t (record t { rows = x })) e w
  claim_rows-Writes t k (r ∷ rs) rows out cs w h =
      let set = set_candidate env io now lease k r in
      let rows' = update_row r.id (same_version r.version) set rows in
      let first : Writes t (record t { rows = rows' }) =
        updates r.id (same_version r.version) set w (set_candidate-Evolving k r) in
      elim (claim_rows-Round k r rs rows out cs h) [
        | quarantines _ e ↦ claim_rows-Writes t (suc k) rs rows' out cs first e
        | claims bs ds _ _ _ e ↦ claim_rows-Writes t (suc k) rs rows' out ds first e
      ]

  commit_claims-Writes :
      (reply : Reply) (t : Table) (k : ℕ) (rs : List Row)
      → Writes t (commit_claims reply t (claim_rows env io now lease k rs t.rows)).1
  commit_claims-Writes reply t k rs = go (claim_rows env io now lease k rs t.rows) refl
    where
      go :
          (x : Claimed)
          → claim_rows env io now lease k rs t.rows ≡ x
          → Writes t (commit_claims reply t x).1
      go (err e) h = nothing
      go (ok (rows, cs)) h = elim (Bool-cases (is_applied reply)) [
        | inl done ↦ rw done (claim_rows-Writes t k rs t.rows rows cs nothing h)
        | inr not_done ↦ rw not_done nothing
      ]

abbrev pub blocked : ClaimIo → Bool
blocked io =
    not (is_answered io.begin_reply)
    || not (is_answered io.clock_reply)
    || not (is_answered io.select_reply)

pub claim_due-Writes :
    (env : Env) (io : ClaimIo) (now : ℕ) (locked : ℕ → Bool) (limit lease : ℤ) (t : Table)
    → Writes t (claim_due env io now locked limit lease t).1
unfolding claim_due
claim_due-Writes env io now locked limit lease t = elim (Bool-cases (limits_invalid limit lease)) [
  | inl bad ↦ rw bad nothing
  | inr good ↦ elim (Bool-cases (blocked io)) [
    | inl stop ↦ rw (good, stop) nothing
    | inr go ↦
        rw (good, go)
          (commit_claims-Writes env io now (pos_part lease) io.commit_reply t 0
            (select_due now locked (pos_part limit) t.rows))
  ]
]
