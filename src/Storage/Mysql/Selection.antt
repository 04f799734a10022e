-- ===== src/Storage/Mysql/Selection.antt =====
-- storage/mysql/store.go: the rows that `ClaimDue` selects are rows of the table, due, unlocked, each
-- once.
use reliable_messaging.Base.{
  ℕ, zero, suc, ◌≤◌, leb, ◌⊎◌, Option, refl, Bool, true, false, not, ◌&&◌, List, [], ◌∷◌, none,
  some, ◌≡◌, ◌≢◌, arith, All, ◌==◌, Bool-cases, inl, inr, take, length, length-take, sym,
}
use mathlib.Core.Path.{subst}
use reliable_messaging.Storage.Mysql.Rows.{
  Row, RowState, find_row, pending, retry_wait, publishing, published, quarantined, is_waiting,
  is_publishing, expired,
}
use reliable_messaging.Storage.Mysql.Claim.{due, before, insert_ordered, due_rows, select_due}
use reliable_messaging.Storage.Mysql.Table.{Distinct}

module _ {κ} (P : Row → Type κ) where
  pub All-insert_ordered : (r : Row) (rs : List Row) → P r → All P rs → All P (insert_ordered r rs)
  unfolding insert_ordered
  All-insert_ordered r [] h k = (h, tt)
  All-insert_ordered r (s ∷ ss) h k = elim (Bool-cases (before r s)) [
    | inl b ↦ rw b (h, k)
    | inr b ↦ rw b (k.0, All-insert_ordered r ss h k.1)
  ]

  pub All-take : (n : ℕ) (rs : List Row) → All P rs → All P (take n rs)
  All-take zero rs h = tt
  All-take (suc n) [] h = tt
  All-take (suc n) (r ∷ rs) h = (h.0, All-take n rs h.1)

-- The row waits for an attempt and its time has come, or it is publishing on a lease that has ended.
abbrev pub DueNow : ℕ → Row → Type 0
DueNow now r =
    (((r.state ≡ pending) ⊎ (r.state ≡ retry_wait)) × (r.next_attempt_at ≤ now))
    ⊎ ((r.state ≡ publishing) × ((u : ℕ) × (r.lease_until ≡ some u) × (u ≤ now)))

waiting_state : (s : RowState) → is_waiting s ≡ true → (s ≡ pending) ⊎ (s ≡ retry_wait)
waiting_state pending h = inl refl
waiting_state retry_wait h = inr refl
waiting_state publishing h = cc
waiting_state published h = cc
waiting_state quarantined h = cc

publishing_state : (s : RowState) → is_publishing s ≡ true → s ≡ publishing
publishing_state s h = ground arith

lease_over : (now : ℕ) (o : Option ℕ) → expired now o ≡ true → (u : ℕ) × (o ≡ some u) × (u ≤ now)
lease_over now none h = cc
lease_over now (some u) h = (u, refl, ground arith)

pub due_sound : (now : ℕ) (r : Row) → due now r ≡ true → DueNow now r
due_sound now r h = elim (Bool-cases (is_waiting r.state && leb r.next_attempt_at now)) [
  | inl w ↦ inl (waiting_state r.state (ground arith), ground arith)
  | inr w ↦
      inr (publishing_state r.state (ground arith), lease_over now r.lease_until (ground arith))
]

-- What the selection's WHERE clause and SKIP LOCKED demand of a row.
abbrev pub IsDue : ℕ → (ℕ → Bool) → Row → Type 0
IsDue now locked r = DueNow now r × (locked r.id ≡ false)

module _ {κ} (now : ℕ) (locked : ℕ → Bool) (P : Row → Type κ) where
  All-due_rows :
      (rs : List Row) → All P rs → All (λ r. P r × IsDue now locked r) (due_rows now locked rs)
  unfolding due_rows
  All-due_rows [] h = tt
  All-due_rows (r ∷ rs) h = elim (Bool-cases (due now r && not (locked r.id))) [
    | inl d ↦ rw d (
        All-insert_ordered (λ q. P q × IsDue now locked q) r (due_rows now locked rs)
          (h.0, (due_sound now r (ground arith), ground arith)) (All-due_rows rs h.1))
    | inr d ↦ rw d (All-due_rows rs h.1)
  ]

pub All-fst {ℓ κ μ} :
    {A : Type ℓ} (P : A → Type κ) (Q : A → Type μ) (xs : List A)
    → All (λ x. P x × Q x) xs
    → All P xs
All-fst P Q [] h = tt
All-fst P Q (x ∷ xs) h = (h.0.0, All-fst P Q xs h.1)

abbrev Stored : List Row → Row → Type 0
Stored rs r = find_row r.id rs ≡ some r

All-Stored_cons :
    (r : Row) (rs ss : List Row)
    → find_row r.id rs ≡ none
    → All (Stored rs) ss
    → All (Stored (r ∷ rs)) ss
unfolding find_row
All-Stored_cons r rs [] gone h = tt
All-Stored_cons r rs (s ∷ ss) gone h = (
  elim (Bool-cases (r.id == s.id)) [
    | inl same ↦
        let e : r.id ≡ s.id = ground arith in cc (subst (λ k. find_row k rs ≡ none) e gone, h.0)
    | inr other ↦ rw other h.0
  ],
  All-Stored_cons r rs ss gone h.1,
)

Distinct-Stored : (rs : List Row) → Distinct rs → All (Stored rs) rs
unfolding find_row
Distinct-Stored [] d = tt
Distinct-Stored (r ∷ rs) d = (ground arith, All-Stored_cons r rs rs d.0 (Distinct-Stored rs d.1))

-- Each id occurs once.
abbrev pub OnceEach : List Row → Type 0
OnceEach [] = Unit
OnceEach (r ∷ rs) = All (λ s. s.id ≢ r.id) rs × OnceEach rs

insert_ordered-OnceEach :
    (r : Row) (rs : List Row)
    → All (λ s. s.id ≢ r.id) rs
    → OnceEach rs
    → OnceEach (insert_ordered r rs)
unfolding insert_ordered
insert_ordered-OnceEach r [] new once = (tt, tt)
insert_ordered-OnceEach r (s ∷ ss) new once = elim (Bool-cases (before r s)) [
  | inl b ↦ rw b (new, once)
  | inr b ↦ rw b (
    All-insert_ordered (λ q. q.id ≢ s.id) r ss (λ e. new.0 (sym e)) once.0,
    insert_ordered-OnceEach r ss new.1 once.1,
  )
]

take-OnceEach : (n : ℕ) (rs : List Row) → OnceEach rs → OnceEach (take n rs)
take-OnceEach zero rs h = tt
take-OnceEach (suc n) [] h = tt
take-OnceEach (suc n) (r ∷ rs) h = (All-take (λ s. s.id ≢ r.id) n rs h.0, take-OnceEach n rs h.1)

none-All_ne : (id : ℕ) (rs : List Row) → find_row id rs ≡ none → All (λ s. s.id ≢ id) rs
unfolding find_row
none-All_ne id [] h = tt
none-All_ne id (r ∷ rs) h = (λ e. ground arith, none-All_ne id rs (ground arith))

due_rows-OnceEach :
    (now : ℕ) (locked : ℕ → Bool) (rs : List Row) → Distinct rs → OnceEach (due_rows now locked rs)
unfolding due_rows
due_rows-OnceEach now locked [] d = tt
due_rows-OnceEach now locked (r ∷ rs) d = elim (Bool-cases (due now r && not (locked r.id))) [
  | inl h ↦ rw h (
      insert_ordered-OnceEach r (due_rows now locked rs)
        (All-fst (λ s. s.id ≢ r.id) (IsDue now locked) _
          (All-due_rows now locked (λ s. s.id ≢ r.id) rs (none-All_ne r.id rs d.0)))
        (due_rows-OnceEach now locked rs d.1))
  | inr h ↦ rw h (due_rows-OnceEach now locked rs d.1)
]

-- The selection holds at most `limit` rows, each once, each of them the table's row of its id, due
-- by the database clock and locked by nobody.
pub select_due_sound :
    (now : ℕ) (locked : ℕ → Bool) (limit : ℕ) (rows : List Row)
    → Distinct rows
    → (length (select_due now locked limit rows) ≤ limit)
      × OnceEach (select_due now locked limit rows)
      × All
          (λ r. (find_row r.id rows ≡ some r) × IsDue now locked r)
          (select_due now locked limit rows)
unfolding select_due
select_due_sound now locked limit rows d = (
  omega (arith, length-take limit (due_rows now locked rows)),
  take-OnceEach limit (due_rows now locked rows) (due_rows-OnceEach now locked rows d),
  All-take _ limit (due_rows now locked rows)
      (All-due_rows now locked (Stored rows) rows (Distinct-Stored rows d)),
)
