-- ===== src/Storage/Mysql/Lease.antt =====
-- storage/mysql/store.go: a granted claim names its row, and confirms it while its lease runs.
use reliable_messaging.Base.{
  ℕ, ◌/◌, ◌≤◌, ◌<◌, Bool, true, false, ◌&&◌, List, [], ◌∷◌, some, ◌≡◌, refl, arith, All, ◌==◌,
  Bool-cases, inl, inr, Result, ok, err, sym, ◌∙◌, length, is_empty, ap,
}
use mathlib.Core.Path.{subst}
use reliable_messaging.Env.{Env}
use reliable_messaging.Base.Bytes.{Bytes, u64_mod, bytes_eq, bytes_eq_refl}
use reliable_messaging.Base.Text.{format_uint, parse_uint-format_uint, hex}
use reliable_messaging.Base.Int.{ℤ, pos_part}
use reliable_messaging.Message.{Message, MessageError, message_of, new}
use reliable_messaging.Message.Validity.{new-eq-ok_iff}
use reliable_messaging.Outbox.{Claim}
use reliable_messaging.Storage.Mysql.Rows.{Row, Table, answered, find_row, published}
use reliable_messaging.Storage.Mysql.Append.{record_number}
use reliable_messaging.Storage.Mysql.Write.{confirm, set_confirmed, released, claim_holds}
use reliable_messaging.Storage.Mysql.Claim.{
  ClaimIo, claim_for, set_candidate, set_claimed, lease_end, token_of, intact, decoded, claim_due,
}
use reliable_messaging.Storage.Mysql.Table.{find_row-update_row}
use reliable_messaging.Storage.Mysql.Claims.{IsGranted, set_candidate-id}
use reliable_messaging.Storage.Mysql.Granting.{WasDue, claim_due_settles, claim_due-eq-ok}
use reliable_messaging.Storage.Mysql.Fencing.{IsHolder, IsHeld-claim_holds, update_cases}
use reliable_messaging.Storage.Mysql.Keys.{IsTable, run_all-IsTable}
use reliable_messaging.Storage.Mysql.Operations.{claim, run_all}

-- The text of a positive 64-bit id names that id.
record_number-format_uint :
    (id : ℕ) → 0 < id → id < u64_mod → record_number (format_uint id) ≡ some id
unfolding record_number
record_number-format_uint id p h =
    rw (parse_uint-format_uint id h, record_number) (ground (arith, bytes_eq_refl (format_uint id)))

hex-present : (bs : Bytes) → 0 < length bs → is_empty (hex bs) ≡ false
unfolding hex
hex-present [] h = absurd (omega arith)
hex-present (b ∷ bs) h = refl

-- `rand.Read` fills the whole array of the token.
abbrev pub FullTokens : ClaimIo → Type 0
FullTokens io = (k : ℕ) (bs : Bytes) → io.entropy k ≡ some bs → length bs ≡ 32

All-find_row {κ} :
    (P : Row → Type κ) (id : ℕ) (rs : List Row) {r : Row} → All P rs → find_row id rs ≡ some r → P r
unfolding find_row
All-find_row P id [] h e = cc
All-find_row P id (s ∷ rs) {r} h e = elim (Bool-cases (s.id == id)) [
  | inl same ↦ let f : s ≡ r = ground arith in subst P f h.0
  | inr other ↦ All-find_row P id rs h.1 (ground arith)
]

-- The content of an intact row is the message's.
intact-input :
    (env : Env) (r : Row) → intact env r ≡ true → (message_of (new env r.input)).input ≡ r.input
intact-input env r h = go (new env r.input) refl
  where
    go : (x : Result MessageError Message) → new env r.input ≡ x → (message_of x).input ≡ r.input
    go (ok m) e =
        unfold message_of in ap (λ (y : Message). y.input) ((new-eq-ok_iff env r.input m).0 e).1
    go (err f) e =
        cc
          (subst (λ x. (decoded x && bytes_eq r.fingerprint (message_of x).fingerprint) ≡ true) e h)

-- The row that the confirmation leaves behind.
pub record IsConfirmed (now : ℕ) (c : Claim) (t : Table) : Type 0 where
  pub accepted : (confirm now answered c t).0 ≡ ok tt
  pub row : Row
  pub stored : find_row row.id (confirm now answered c t).1.rows ≡ some row
  pub in_published : row.state ≡ published
  pub confirmed_at : row.transport_confirmed_at ≡ some now
  pub same_content : row.input ≡ c.message.input

module _ (env : Env) (io : ClaimIo) (now : ℕ) (locked : ℕ → Bool) (limit lease : ℤ) (t u : Table)
    (keyed : IsTable u) (small : u.next_id ≤ u64_mod) (tokens : FullTokens io) where
  -- The candidate's row as the claim left it.
  abbrev leased : ℕ → Row → Row
  leased k r =
      set_claimed (io.written_at k) (lease_end now (pos_part lease)) (token_of (io.entropy k)) r

  leased-eq :
      (k : ℕ) (r : Row)
      → intact env r ≡ true
      → set_candidate env io now (pos_part lease) k r r ≡ leased k r
  leased-eq k r h = rw h

  stored-record_number :
      (k : ℕ) (r : Row)
      → find_row r.id u.rows ≡ some (leased k r)
      → record_number (format_uint r.id) ≡ some r.id
  stored-record_number k r found =
      record_number-format_uint r.id
        (All-find_row (λ q. 0 < q.id) r.id u.rows keyed.keyed.pos_ids found)
        (omega (arith, All-find_row (λ q. q.id < u.next_id) r.id u.rows keyed.keyed.below found))

  granted-IsHolder :
      (k : ℕ) (r : Row) (bs : Bytes) (now' : ℕ)
      → io.entropy k ≡ some bs
      → find_row r.id u.rows ≡ some (leased k r)
      → now' < lease_end now (pos_part lease) / 1000
      → IsHolder now' (claim_for env io now (pos_part lease) k r) u
  granted-IsHolder k r bs now' drawn found early = record {
    id = r.id;
    row = leased k r;
    until = lease_end now (pos_part lease) / 1000;
    names = stored-record_number k r found;
    has_token = rw drawn (hex-present bs (omega (arith, tokens k bs drawn)));
    has_version = omega arith;
    found = found;
    held = record {
      same_token = refl;
      same_version = refl;
      in_publishing = refl;
      same_lease = refl;
      not_expired = early;
    };
  }

  holder-IsConfirmed :
      (k : ℕ) (r : Row) (now' : ℕ)
      → intact env r ≡ true
      → find_row r.id u.rows ≡ some (leased k r)
      → record_number (format_uint r.id) ≡ some r.id
      → IsHolder now' (claim_for env io now (pos_part lease) k r) u
      → IsConfirmed now' (claim_for env io now (pos_part lease) k r) u
  unfolding confirm
  holder-IsConfirmed k r now' good found named h =
      let c = claim_for env io now (pos_part lease) k r in
      elim (update_cases now' c (set_confirmed now') u keyed) [
        | inr (none_holds, e) ↦ absurd (none_holds h)
        | inl (h', e) ↦
            let same : h'.id ≡ r.id = cc (h'.names, named) in
            let own : find_row r.id u.rows ≡ some h'.row =
              subst (λ i. find_row i u.rows ≡ some h'.row) same h'.found in
            let held = IsHeld-claim_holds now' c h'.row h'.until h'.held in
            let is_leased : h'.row ≡ leased k r = cc (own, found) in
            let after =
              find_row-update_row h'.id r.id (claim_holds now' c)
                (λ q. released now' (set_confirmed now' q)) u.rows (λ q. refl) in
            record {
              accepted = rw e;
              row = released now' (set_confirmed now' (leased k r));
              stored = rw e (after ∙ rw (same, found) (ground (arith, held, is_leased)));
              in_published = refl;
              confirmed_at = refl;
              same_content = sym (intact-input env r good);
            }
      ]

  granted-IsConfirmed :
      (P : Row → Type 0) (c : Claim) (now' : ℕ)
      → IsGranted env io now (pos_part lease) P u.rows c
      → now' < c.lease_until / 1000
      → IsConfirmed now' c u
  granted-IsConfirmed P c now' g early =
      let d = claim_for env io now (pos_part lease) g.place g.row in
      let found = g.kept ∙ ap some (leased-eq g.place g.row g.content) in
      let soon : now' < d.lease_until / 1000 =
        subst (λ x. now' < x.lease_until / 1000) g.claim_lem early in
      let h = granted-IsHolder g.place g.row g.random now' g.drawn found soon in
      subst (λ x. IsConfirmed now' x u) (sym g.claim_lem)
        (holder-IsConfirmed g.place g.row now' g.content found
          (stored-record_number g.place g.row found) h)

  grants-IsConfirmed :
      (P : Row → Type 0) (cs : List Claim) (now' : ℕ)
      → All (IsGranted env io now (pos_part lease) P u.rows) cs
      → All (λ c. now' < c.lease_until / 1000 → IsConfirmed now' c u) cs
  grants-IsConfirmed P [] now' g = tt
  grants-IsConfirmed P (c ∷ cs) now' g =
      (granted-IsConfirmed P c now' g.0, grants-IsConfirmed P cs now' g.1)

-- A returned claim carries its row's key and content.
module _ (env : Env) (io : ClaimIo) (now : ℕ) (lease : ℤ) (u : Table) (keyed : IsTable u)
    (small : u.next_id ≤ u64_mod) (P : Row → Type 0) (c : Claim)
    (g : IsGranted env io now (pos_part lease) P u.rows c) where
  pub granted-names : record_number c.record_id ≡ some g.row.id
  granted-names =
      let n = set_candidate-id env io now (pos_part lease) g.place g.row g.row in
      let p : 0 < g.row.id =
        subst (λ k. 0 < k) n
          (All-find_row (λ q. 0 < q.id) g.row.id u.rows keyed.keyed.pos_ids g.kept) in
      let b =
        subst (λ k. k < u.next_id) n
          (All-find_row (λ q. q.id < u.next_id) g.row.id u.rows keyed.keyed.below g.kept) in
      subst (λ x. record_number x.record_id ≡ some g.row.id) (sym g.claim_lem)
        (record_number-format_uint g.row.id p (omega (arith, b)))

  pub granted-content :
      (set_candidate env io now (pos_part lease) g.place g.row g.row).input ≡ c.message.input
  granted-content = rw g.content (
      subst (λ x. g.row.input ≡ x.message.input) (sym g.claim_lem)
        (sym (intact-input env g.row g.content)))

-- Every claim that `ClaimDue` returns, on a table with sound keys and 64-bit ids and with full random
-- tokens, can be confirmed at any later time before its lease ends, if
-- nothing else was written in between and the database answers: the row is then published, at that
-- time, and holds the content of the claim's message.
pub claim_due-confirm :
    (env : Env) (io : ClaimIo) (now : ℕ) (locked : ℕ → Bool) (limit lease : ℤ) (t u : Table)
    (cs : List Claim)
    → IsTable t
    → t.next_id ≤ u64_mod
    → FullTokens io
    → claim_due env io now locked limit lease t ≡ (ok cs, u)
    → (now' : ℕ) → All (λ c. now' < c.lease_until / 1000 → IsConfirmed now' c u) cs
unfolding run_all
claim_due-confirm env io now locked limit lease t u cs keyed small tokens h now' =
    let g = (claim_due_settles env io now locked limit lease t keyed cs u h).1 in
    let after : IsTable u =
      subst (λ x. IsTable x.1) h
        (run_all-IsTable env (claim io now locked limit lease ∷ []) t keyed) in
    let (_, _, same) = claim_due-eq-ok env io now locked limit lease t cs u h in
    let room : u.next_id ≤ u64_mod = subst (λ x. x.next_id ≤ u64_mod) (sym same) small in
    grants-IsConfirmed env io now locked limit lease t u after room tokens
      (WasDue env io now locked limit lease t) cs now' g
