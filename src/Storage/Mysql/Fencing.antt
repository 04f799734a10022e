-- ===== src/Storage/Mysql/Fencing.antt =====
-- storage/mysql/store.go: a claim's conditional writes take effect only for its holder.
use reliable_messaging.Base.{
  ℕ, ◌<◌, Bool, true, false, ◌||◌, List, [], ◌∷◌, Option, none, some, ◌≡◌, ◌≢◌, refl, arith, ◌==◌,
  Bool-cases, Option-cases, inl, inr, ◌⊎◌, ok, err, is_empty, ◌∙◌,
}
use mathlib.Core.Path.{subst}
use reliable_messaging.Base.Bytes.{Bytes, bytes_eq_iff}
use reliable_messaging.Outbox.{Claim, stale_claim}
use reliable_messaging.Storage.Mysql.Rows.{
  Row, RowState, Table, Reply, answered, find_row, update_row, affected, publishing, holds,
  unexpired, is_publishing,
}
use reliable_messaging.Storage.Mysql.Append.{record_number}
use reliable_messaging.Storage.Mysql.Write.{write_row, update, released, claim_holds}
use reliable_messaging.Storage.Mysql.Table.{affected-eq, hit}
use reliable_messaging.Storage.Mysql.Keys.{IsTable}

-- The row is publishing under the claim's token and version, on a lease that runs beyond `now`.
pub record IsHeld (now : ℕ) (c : Claim) (r : Row) (until : ℕ) : Type 0 where
  pub same_token : r.claim_token ≡ some c.token
  pub same_version : r.version ≡ c.version
  pub in_publishing : r.state ≡ publishing
  pub same_lease : r.lease_until ≡ some until
  pub not_expired : now < until

-- Whoever presents the claim holds its row.
pub record IsHolder (now : ℕ) (c : Claim) (t : Table) : Type 0 where
  pub id : ℕ
  pub row : Row
  pub until : ℕ
  pub names : record_number c.record_id ≡ some id
  pub has_token : is_empty c.token ≡ false
  pub has_version : c.version ≢ 0
  pub found : find_row id t.rows ≡ some row
  pub held : IsHeld now c row until

holds-eq : (o : Option Bytes) (token : Bytes) → holds o token ≡ true → o ≡ some token
holds-eq none token h = cc
holds-eq (some x) token h = ground (arith, bytes_eq_iff x token)

unexpired-until :
    (now : ℕ) (o : Option ℕ) → unexpired now o ≡ true → (u : ℕ) × (o ≡ some u) × (now < u)
unexpired-until now none h = cc
unexpired-until now (some u) h = (u, refl, ground arith)

is_publishing-eq : (s : RowState) → is_publishing s ≡ true → s ≡ publishing
is_publishing-eq s h = ground arith

claim_holds-IsHeld :
    (now : ℕ) (c : Claim) (r : Row) → claim_holds now c r ≡ true → (u : ℕ) × IsHeld now c r u
claim_holds-IsHeld now c r h =
    let (u, e, l) = unexpired-until now r.lease_until (ground arith) in
    (
      u,
      record {
        same_token = holds-eq r.claim_token c.token (ground arith);
        same_version = ground arith;
        in_publishing = is_publishing-eq r.state (ground arith);
        same_lease = e;
        not_expired = l;
      },
    )

pub IsHeld-claim_holds :
    (now : ℕ) (c : Claim) (r : Row) (u : ℕ) → IsHeld now c r u → claim_holds now c r ≡ true
IsHeld-claim_holds now c r u h = ground (arith, bytes_eq_iff c.token c.token)

update_row-missed :
    (id : ℕ) (test : Row → Bool) (f : Row → Row) (rs : List Row)
    → affected id test rs ≡ 0
    → update_row id test f rs ≡ rs
unfolding update_row affected
update_row-missed id test f [] h = refl
update_row-missed id test f (r ∷ rs) h = ground (arith, update_row-missed id test f rs)

-- The statement reached by a claim whose text is a row's number.
module _ (now : ℕ) (c : Claim) (set : Row → Row) (t : Table) (keyed : IsTable t) where
  abbrev matches : Row → Bool
  matches = claim_holds now c

  abbrev pub written : ℕ → Table
  written id = record t { rows = update_row id matches (λ r. released now (set r)) t.rows }

  write_row-hit :
      (id : ℕ)
      → hit matches (find_row id t.rows) ≡ true
      → write_row now answered c set id t ≡ (ok tt, written id)
  unfolding write_row
  write_row-hit id h =
      let n : affected id matches t.rows ≡ 1 =
        affected-eq id matches t.rows keyed.keyed.distinct ∙ rw h in
      rw n

  write_row-missed :
      (id : ℕ)
      → hit matches (find_row id t.rows) ≡ false
      → write_row now answered c set id t ≡ (err stale_claim, t)
  unfolding write_row
  write_row-missed id h =
      let n : affected id matches t.rows ≡ 0 =
        affected-eq id matches t.rows keyed.keyed.distinct ∙ rw h in
      rw (n, update_row-missed id matches (λ r. released now (set r)) t.rows n)

  hit-row : (o : Option Row) → hit matches o ≡ true → (r : Row) × (o ≡ some r) × (matches r ≡ true)
  hit-row none h = cc
  hit-row (some r) h = (r, refl, h)

  -- A claim that names a row, with its token and version.
  abbrev Presentable : ℕ → Type 0
  Presentable id =
      (record_number c.record_id ≡ some id) × ((is_empty c.token || c.version == 0) ≡ false)

  update-Presentable :
      (reply : Reply) (id : ℕ)
      → Presentable id
      → update now reply c set t ≡ write_row now reply c set id t
  unfolding update
  update-Presentable reply id p = rw (p.0, p.1, update)

  -- A claim is presentable for one row, or refused at once.
  Presentable-cases :
      ((id : ℕ) × Presentable id)
      ⊎ (((id : ℕ) → ¬ Presentable id)
          × ((reply : Reply) → update now reply c set t ≡ (err stale_claim, t)))
  unfolding update
  Presentable-cases = elim (Option-cases (record_number c.record_id)) [
    | inl n ↦ inr (λ id p. cc (p.0), λ reply. rw (n, update))
    | inr (id, e) ↦ elim (Bool-cases (is_empty c.token || c.version == 0)) [
      | inl bad ↦ inr (λ id' p. cc (p.1), λ reply. rw (e, bad, update))
      | inr good ↦ inl (id, (e, good))
    ]
  ]

  IsHolder-hit :
      (id : ℕ) → Presentable id → IsHolder now c t → hit matches (find_row id t.rows) ≡ true
  IsHolder-hit id p h =
      let e : h.id ≡ id = cc (h.names, p.0) in
      let found : find_row id t.rows ≡ some h.row =
        subst (λ k. find_row k t.rows ≡ some h.row) e h.found in
      rw found (IsHeld-claim_holds now c h.row h.until h.held)

  IsHolder-Presentable : (h : IsHolder now c t) → Presentable h.id
  IsHolder-Presentable h = (h.names, ground (arith, h.has_token, h.has_version))

  -- A conditional write that the database answers writes the holder's row, or is refused.
  pub update_cases :
      ((h : IsHolder now c t) × (update now answered c set t ≡ (ok tt, written h.id)))
      ⊎ ((¬ IsHolder now c t) × (update now answered c set t ≡ (err stale_claim, t)))
  update_cases = elim Presentable-cases [
    | inr none_fit ↦ inr (λ h. none_fit.0 h.id (IsHolder-Presentable h), none_fit.1 answered)
    | inl (id, p) ↦ elim (Bool-cases (hit matches (find_row id t.rows))) [
      | inl h ↦
          let (r, e, m) = hit-row (find_row id t.rows) h in
          let (u, held) = claim_holds-IsHeld now c r m in
          inl (
            record {
              id = id;
              row = r;
              until = u;
              names = p.0;
              has_token = ground arith;
              has_version = ground arith;
              found = e;
              held = held;
            },
            update-Presentable answered id p ∙ write_row-hit id h,
          )
      | inr miss ↦ inr (
        λ h. cc (IsHolder-hit id p h),
        update-Presentable answered id p ∙ write_row-missed id miss,
      )
    ]
  ]
