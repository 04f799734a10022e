-- ===== src/Storage/Mysql/Granted.antt =====
-- storage/mysql/store.go: the rows and the claims of a successful `ClaimDue`.
use reliable_messaging.Base.{
  Any, ℕ, Bool, ◌+◌, ◌*◌, ◌/◌, ◌≤◌, true, false, List, [], ◌∷◌, some, ◌≡◌, refl, arith, All,
  Bool-cases, inl, inr, ◌∙◌, Result, ok, err, sym, ap, length, ◌&&◌,
}
use mathlib.Core.Path.{subst}
use reliable_messaging.Env.{Env}
use reliable_messaging.Base.Bytes.{bytes_eq, bytes_eq_iff}
use reliable_messaging.Base.Int.{ℤ, pos_part}
use reliable_messaging.Message.{Message, MessageError, message_of, new}
use reliable_messaging.Outbox.{Claim}
use reliable_messaging.Storage.Mysql.Rows.{Row, Table, find_row}
use reliable_messaging.Storage.Mysql.Claim.{
  ClaimIo, claim_due, claim_for, set_candidate, token_of, decoded, intact, lease_end,
}
use reliable_messaging.Storage.Mysql.Claims.{IsSettled, IsGranted}
use reliable_messaging.Storage.Mysql.Granting.{candidates, claim_due_settles}
use reliable_messaging.Storage.Mysql.Selection.{IsDue, select_due_sound}
use reliable_messaging.Storage.Mysql.Ordering.{select_due-InOrder, select_due-IsServed}
use reliable_messaging.Storage.Mysql.Keys.{IsTable}
use reliable_messaging.Storage.Mysql.Grants.{
  HoldsMessage, IsLeased, IsCorrupt, Presents, IsGrant, IsDisposed, IsSelection,
}

intact-HoldsMessage :
    (env : Env) (r : Row) → intact env r ≡ true → HoldsMessage env r (message_of (new env r.input))
unfolding message_of
intact-HoldsMessage env r h = go (new env r.input) refl
  where
    go :
        (x : Result MessageError Message)
        → new env r.input ≡ x
        → (x ≡ ok (message_of x)) × (r.fingerprint ≡ (message_of x).fingerprint)
    go (ok m) e =
        let fits : (decoded (ok m) && bytes_eq r.fingerprint (message_of (ok m)).fingerprint)
            ≡ true =
          subst (λ x. (decoded x && bytes_eq r.fingerprint (message_of x).fingerprint) ≡ true) e
            h in
        (refl, (bytes_eq_iff r.fingerprint m.fingerprint).0 fits)
    go (err f) e =
        cc
          (subst (λ x. (decoded x && bytes_eq r.fingerprint (message_of x).fingerprint) ≡ true) e h)

HoldsMessage-intact :
    (env : Env) (r : Row) (m : Message) → HoldsMessage env r m → intact env r ≡ true
unfolding message_of
HoldsMessage-intact env r m (e, f) = rw e ((bytes_eq_iff r.fingerprint m.fingerprint).1 f)

-- A lease of `lease` nanoseconds from `now` ends at a whole microsecond.
lease_end-micros :
    (now lease : ℕ)
    → (lease_end now lease / 1000 ≡ now + lease / 1000)
      × (lease_end now lease ≡ (now + lease / 1000) * 1000)
lease_end-micros now lease = (omega arith, omega arith)

module _ (env : Env) (io : ClaimIo) (now lease : ℕ) where
  abbrev until : ℕ
  until = now + lease / 1000

  claimed-IsLeased :
      (k : ℕ) (r : Row)
      → intact env r ≡ true
      → IsLeased until (token_of (io.entropy k)) r (set_candidate env io now lease k r r)
  claimed-IsLeased k r h =
      let e = (lease_end-micros now lease).0 in
      rw h (record {
        content = record {
          same_id = refl;
          same_input = refl;
          same_fingerprint = refl;
          same_confirmed = refl;
          same_replay = refl;
          same_replay_version = refl;
          same_created = refl;
        };
        in_publishing = refl;
        under_token = refl;
        lease_ends = ap some e;
        next_due = e;
        next_version = refl;
        one_more_attempt = refl;
        same_failures = refl;
        same_code = refl;
      })

  broken-IsCorrupt :
      (k : ℕ) (r : Row) → intact env r ≡ false → IsCorrupt r (set_candidate env io now lease k r r)
  broken-IsCorrupt k r h = rw h (record {
    content = record {
      same_id = refl;
      same_input = refl;
      same_fingerprint = refl;
      same_confirmed = refl;
      same_replay = refl;
      same_replay_version = refl;
      same_created = refl;
    };
    in_quarantined = refl;
    no_token = refl;
    no_lease = refl;
    same_due = refl;
    next_version = refl;
    same_attempts = refl;
    one_more_failure = refl;
    coded = refl;
  })

  claim_for-Presents :
      (k : ℕ) (r : Row) (m : Message)
      → HoldsMessage env r m
      → Presents until m r (set_candidate env io now lease k r r) (claim_for env io now lease k r)
  unfolding message_of
  claim_for-Presents k r m held =
      let leased = claimed-IsLeased k r (HoldsMessage-intact env r m held) in
      record {
        names_row = refl;
        names_version = sym leased.next_version;
        attempt = refl;
        failures = refl;
        lease = (lease_end-micros now lease).1;
        message = rw held.0 refl;
        is_leased = leased;
      }

  Any-Presents :
      (k : ℕ) (r : Row) (m : Message) (cs : List Claim)
      → HoldsMessage env r m
      → Any (λ c. c ≡ claim_for env io now lease k r) cs
      → Any (λ c. Presents until m r (set_candidate env io now lease k r r) c) cs
  Any-Presents k r m [] held a = absurd a
  Any-Presents k r m (c ∷ cs) held (inl e) = inl (
      subst (λ x. Presents until m r (set_candidate env io now lease k r r) x) (sym e)
        (claim_for-Presents k r m held))
  Any-Presents k r m (c ∷ cs) held (inr a) = inr (Any-Presents k r m cs held a)

  settled-IsDisposed :
      (out : List Row) (cs : List Claim) (r : Row)
      → IsSettled env io now lease out cs r
      → IsDisposed env until out cs r
  settled-IsDisposed out cs r s = record {
    after = set_candidate env io now lease s.at_place r r;
    stored = s.stored;
    outcome = elim (Bool-cases (intact env r)) [
      | inl good ↦
          let held = intact-HoldsMessage env r good in
          let m = message_of (new env r.input) in
          inl (m, held, Any-Presents s.at_place r m cs held (s.returned good))
      | inr bad ↦
          inr (
            λ m held. cc (HoldsMessage-intact env r m held, bad),
            broken-IsCorrupt s.at_place r bad,
          )
    ];
  }

  granted-IsGrant :
      (P : Row → Type 0) (out : List Row) (c : Claim)
      → IsGranted env io now lease P out c
      → IsGrant env io until P out c
  granted-IsGrant P out c g =
      let held = intact-HoldsMessage env g.row g.content in
      let after = set_candidate env io now lease g.place g.row g.row in
      let m = message_of (new env g.row.input) in
      record {
        row = g.row;
        candidate = g.candidate;
        message = m;
        held = held;
        after = after;
        stored = g.kept;
        presents =
            subst (λ x. Presents until m g.row after x) (sym g.claim_lem)
              (claim_for-Presents g.place g.row m held);
        draw = g.place;
        random = g.random;
        drawn = g.drawn;
        token = ap (λ (x : Claim). x.token) g.claim_lem ∙ ap token_of g.drawn;
      }

  granted-All :
      (P : Row → Type 0) (out : List Row) (cs : List Claim)
      → All (IsGranted env io now lease P out) cs
      → All (IsGrant env io until P out) cs
  granted-All P out [] g = tt
  granted-All P out (c ∷ cs) g = (granted-IsGrant P out c g.0, granted-All P out cs g.1)

  settled-All :
      (out : List Row) (cs : List Claim) (rs : List Row)
      → All (IsSettled env io now lease out cs) rs
      → All (IsDisposed env until out cs) rs
  settled-All out cs [] s = tt
  settled-All out cs (r ∷ rs) s = (settled-IsDisposed out cs r s.0, settled-All out cs rs s.1)

-- On a table with sound keys, a successful `ClaimDue` selects due rows in their order up to the
-- limit. Each selected row that holds a message is publishing under the token and the version of a
-- returned claim until the lease's end, with one attempt more, and each other is quarantined with
-- one failure more. Each claim returned is for one such row, with the row's message and a token of
-- random bytes.
pub claim_due_grants :
    (env : Env) (io : ClaimIo) (now : ℕ) (locked : ℕ → Bool) (limit lease : ℤ) (t : Table)
    → IsTable t
    → (cs : List Claim) (u : Table) → claim_due env io now locked limit lease t ≡ (ok cs, u)
    → (length cs ≤ pos_part limit)
      × ((rs : List Row) × IsSelection now locked (pos_part limit) t.rows rs
          × All (IsDisposed env (now + pos_part lease / 1000) u.rows cs) rs
          × All
              (IsGrant env io
                (now + pos_part lease / 1000)
                (λ r. (find_row r.id t.rows ≡ some r) × IsDue now locked r)
                u.rows)
              cs)
claim_due_grants env io now locked limit lease t keyed cs u h =
    let (few, granted, settled) = claim_due_settles env io now locked limit lease t keyed cs u h in
    let rs = candidates env io now locked limit lease t in
    let (size, once, sound) =
      select_due_sound now locked (pos_part limit) t.rows keyed.keyed.distinct in
    (
      few,
      (
        rs,
        record {
          few = size;
          once = once;
          ordered = select_due-InOrder now locked (pos_part limit) t.rows;
          all_due = sound;
          served = select_due-IsServed now locked (pos_part limit) t.rows;
        },
        settled-All env io now (pos_part lease) u.rows cs rs settled,
        granted-All env io now (pos_part lease)
            (λ r. (find_row r.id t.rows ≡ some r) × IsDue now locked r) u.rows cs granted,
      ),
    )
