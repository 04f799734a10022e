-- ===== src/Storage/Mysql/Growth.antt =====
-- What every operation of the store keeps: rows stay, with their content, and versions only grow.
use reliable_messaging.Base.{
  ℕ, ◌+◌, ◌≤◌, Bool, true, List, some, ◌≡◌, refl, arith, ◌==◌, if◌then◌else◌, Bool-cases, inl, inr,
  ◌∙◌,
}
use reliable_messaging.Storage.Mysql.Rows.{Row, Table, find_row, update_row, add_row, present}
use reliable_messaging.Storage.Mysql.Table.{find_row-update_row, find_row-add_row}

-- How a row may change: its key, content and creation time never do, its counters never fall, the
-- record of a broker confirmation is never erased, and any change raises the version.
pub record Evolves (r s : Row) : Type 0 where
  pub same_id : s.id ≡ r.id
  pub same_input : s.input ≡ r.input
  pub same_fingerprint : s.fingerprint ≡ r.fingerprint
  pub same_created : s.created_at ≡ r.created_at
  pub version_grows : r.version ≤ s.version
  pub unchanged : s.version ≡ r.version → s ≡ r
  pub attempts_grow : r.attempt_count ≤ s.attempt_count
  pub failures_grow : r.failure_count ≤ s.failure_count
  pub confirmation_kept :
      present r.transport_confirmed_at ≡ true → present s.transport_confirmed_at ≡ true

pub Evolves-refl : (r : Row) → Evolves r r
Evolves-refl r = record {
  same_id = refl;
  same_input = refl;
  same_fingerprint = refl;
  same_created = refl;
  version_grows = omega arith;
  unchanged = λ e. refl;
  attempts_grow = omega arith;
  failures_grow = omega arith;
  confirmation_kept = λ h. h;
}

pub Evolves-trans : (r s u : Row) → Evolves r s → Evolves s u → Evolves r u
Evolves-trans r s u p q = record {
  same_id = q.same_id ∙ p.same_id;
  same_input = q.same_input ∙ p.same_input;
  same_fingerprint = q.same_fingerprint ∙ p.same_fingerprint;
  same_created = q.same_created ∙ p.same_created;
  version_grows = omega (arith, p.version_grows, q.version_grows);
  unchanged = λ e.
      let e₁ : u.version ≡ s.version = omega (arith, p.version_grows, q.version_grows) in
      let e₂ : s.version ≡ r.version = omega (arith, p.version_grows, q.version_grows) in
      q.unchanged e₁ ∙ p.unchanged e₂;
  attempts_grow = omega (arith, p.attempts_grow, q.attempts_grow);
  failures_grow = omega (arith, p.failures_grow, q.failures_grow);
  confirmation_kept = λ h. q.confirmation_kept (p.confirmation_kept h);
}

-- Every row of the first list is still in the second, evolved.
abbrev pub RowsGrow : List Row → List Row → Type 0
RowsGrow rs ss =
    (id : ℕ) (r : Row)
    → find_row id rs ≡ some r
    → (s : Row) × (find_row id ss ≡ some s) × Evolves r s

abbrev pub Grows : Table → Table → Type 0
Grows t u = RowsGrow t.rows u.rows

pub RowsGrow-refl : (rs : List Row) → RowsGrow rs rs
RowsGrow-refl rs id r h = (r, h, Evolves-refl r)

pub RowsGrow-trans : (rs ss us : List Row) → RowsGrow rs ss → RowsGrow ss us → RowsGrow rs us
RowsGrow-trans rs ss us p q id r h =
    let (s, hs, es) = p id r h in let (u, hu, eu) = q id s hs in (u, hu, Evolves-trans r s u es eu)

-- An assignment under which a row evolves.
abbrev pub Evolving : (Row → Row) → Type 0
Evolving f = (r : Row) → Evolves r (f r)

updated-Evolves :
    (test : Row → Bool) (f : Row → Row) (r : Row)
    → Evolving f
    → Evolves r (if test r then f r else r)
updated-Evolves test f r g = elim (Bool-cases (test r)) [
  | inl t ↦ rw t (g r)
  | inr t ↦ rw t (Evolves-refl r)
]

pub update_row-RowsGrow :
    (key : ℕ) (test : Row → Bool) (f : Row → Row) (rs : List Row)
    → Evolving f
    → RowsGrow rs (update_row key test f rs)
update_row-RowsGrow key test f rs g id r h =
    let found = find_row-update_row key id test f rs (λ q. (g q).same_id) in
    elim (Bool-cases (id == key)) [
      | inl same ↦ (if test r then f r else r, found ∙ rw (same, h), updated-Evolves test f r g)
      | inr other ↦ (r, found ∙ rw (other, h), Evolves-refl r)
    ]

pub add_row-RowsGrow : (rs : List Row) (q : Row) → RowsGrow rs (add_row rs q)
add_row-RowsGrow rs q id r h = (r, find_row-add_row id rs q ∙ rw h, Evolves-refl r)

-- What an operation does to the table: any number of keyed updates under which the rows evolve, and
-- insertions under the counter's id.
pub data Writes (t : Table) : Table → Type 0 where
  nothing : Writes t t
  updates :
      {u : Table} (key : ℕ) (test : Row → Bool) (f : Row → Row)
      → Writes t u
      → Evolving f
      → Writes t (record u { rows = update_row key test f u.rows })
  inserts :
      {u : Table} (q : Row)
      → Writes t u
      → q.id ≡ u.next_id
      → Writes t (record u { rows = add_row u.rows q; next_id = u.next_id + 1 })

pub Writes-Grows : {t u : Table} → Writes t u → Grows t u
Writes-Grows {t} nothing = RowsGrow-refl t.rows
Writes-Grows {t} (updates {u = u} key test f w g) =
    RowsGrow-trans t.rows u.rows _ (Writes-Grows w) (update_row-RowsGrow key test f u.rows g)
Writes-Grows {t} (inserts {u = u} q w e) =
    RowsGrow-trans t.rows u.rows _ (Writes-Grows w) (add_row-RowsGrow u.rows q)
