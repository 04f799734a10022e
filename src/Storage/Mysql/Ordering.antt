-- ===== src/Storage/Mysql/Ordering.antt =====
-- storage/mysql/store.go: the rows that `ClaimDue` selects come in the order of their due times, and
-- the limit leaves out only rows that come later.
use reliable_messaging.Base.{
  ℕ, zero, suc, ◌≤◌, ◌<◌, Bool, true, false, not, ◌&&◌, List, [], ◌∷◌, some, ◌≡◌, refl, arith, All,
  Any, ◌==◌, ltb, ◌⊎◌, Bool-cases, inl, inr, take, length, ◌∙◌, sym,
}
use mathlib.Core.Path.{subst}
use reliable_messaging.Storage.Mysql.Rows.{Row, find_row}
use reliable_messaging.Storage.Mysql.Claim.{due, before, insert_ordered, due_rows, select_due}
use reliable_messaging.Storage.Mysql.Selection.{DueNow, IsDue, All-insert_ordered, All-take}

-- ORDER BY next_attempt_at, id
abbrev pub Precedes : Row → Row → Type 0
Precedes r s =
    (r.next_attempt_at < s.next_attempt_at)
    ⊎ ((r.next_attempt_at ≡ s.next_attempt_at) × (r.id ≤ s.id))

-- Each row precedes all that follow it.
abbrev pub InOrder : List Row → Type 0
InOrder [] = Unit
InOrder (r ∷ rs) = All (Precedes r) rs × InOrder rs

before-Precedes : (r s : Row) → before r s ≡ true → Precedes r s
before-Precedes r s h = elim (Bool-cases (ltb r.next_attempt_at s.next_attempt_at)) [
  | inl l ↦ inl (ground arith)
  | inr l ↦ inr (ground arith, ground arith)
]

after-Precedes : (r s : Row) → before r s ≡ false → Precedes s r
after-Precedes r s h = elim (Bool-cases (ltb s.next_attempt_at r.next_attempt_at)) [
  | inl l ↦ inl (ground arith)
  | inr l ↦ inr (ground arith, ground arith)
]

Precedes-trans : (r s q : Row) → Precedes r s → Precedes s q → Precedes r q
Precedes-trans r s q (inl a) (inl b) = inl (omega arith)
Precedes-trans r s q (inl a) (inr b) = inl (omega (arith, b.0))
Precedes-trans r s q (inr a) (inl b) = inl (omega (arith, a.0))
Precedes-trans r s q (inr a) (inr b) = inr (a.0 ∙ b.0, omega (arith, a.1, b.1))

All-Precedes :
    (r s : Row) (rs : List Row) → Precedes r s → All (Precedes s) rs → All (Precedes r) rs
All-Precedes r s [] h k = tt
All-Precedes r s (q ∷ qs) h k = (Precedes-trans r s q h k.0, All-Precedes r s qs h k.1)

insert_ordered-InOrder : (r : Row) (rs : List Row) → InOrder rs → InOrder (insert_ordered r rs)
unfolding insert_ordered
insert_ordered-InOrder r [] h = (tt, tt)
insert_ordered-InOrder r (s ∷ ss) h = elim (Bool-cases (before r s)) [
  | inl b ↦ let p = before-Precedes r s b in rw b ((p, All-Precedes r s ss p h.0), h)
  | inr b ↦ rw b (
    All-insert_ordered (Precedes s) r ss (after-Precedes r s b) h.0,
    insert_ordered-InOrder r ss h.1,
  )
]

due_rows-InOrder : (now : ℕ) (locked : ℕ → Bool) (rs : List Row) → InOrder (due_rows now locked rs)
unfolding due_rows
due_rows-InOrder now locked [] = tt
due_rows-InOrder now locked (r ∷ rs) = elim (Bool-cases (due now r && not (locked r.id))) [
  | inl h ↦
      rw h (insert_ordered-InOrder r (due_rows now locked rs) (due_rows-InOrder now locked rs))
  | inr h ↦ rw h (due_rows-InOrder now locked rs)
]

take-InOrder : (n : ℕ) (rs : List Row) → InOrder rs → InOrder (take n rs)
take-InOrder zero rs h = tt
take-InOrder (suc n) [] h = tt
take-InOrder (suc n) (r ∷ rs) h = (All-take (Precedes r) n rs h.0, take-InOrder n rs h.1)

-- The selection comes in the order of its due times, and of the ids within one due time.
pub select_due-InOrder :
    (now : ℕ) (locked : ℕ → Bool) (limit : ℕ) (rows : List Row)
    → InOrder (select_due now locked limit rows)
unfolding select_due
select_due-InOrder now locked limit rows =
    take-InOrder limit (due_rows now locked rows) (due_rows-InOrder now locked rows)

abbrev Among : Row → List Row → Type 0
Among r rs = Any (λ s. s ≡ r) rs

insert_ordered-Among_self : (r : Row) (rs : List Row) → Among r (insert_ordered r rs)
unfolding insert_ordered
insert_ordered-Among_self r [] = inl refl
insert_ordered-Among_self r (s ∷ ss) = elim (Bool-cases (before r s)) [
  | inl b ↦ rw b (inl refl)
  | inr b ↦ rw b (inr (insert_ordered-Among_self r ss))
]

insert_ordered-Among : (q r : Row) (rs : List Row) → Among r rs → Among r (insert_ordered q rs)
unfolding insert_ordered
insert_ordered-Among q r [] h = absurd h
insert_ordered-Among q r (s ∷ ss) (inl e) = elim (Bool-cases (before q s)) [
  | inl b ↦ rw b (inr (inl e))
  | inr b ↦ rw b (inl e)
]
insert_ordered-Among q r (s ∷ ss) (inr h) = elim (Bool-cases (before q s)) [
  | inl b ↦ rw b (inr (inr h))
  | inr b ↦ rw b (inr (insert_ordered-Among q r ss h))
]

due_complete : (now : ℕ) (r : Row) → DueNow now r → due now r ≡ true
due_complete now r (inl (inl e, h)) = rw e (ground arith)
due_complete now r (inl (inr e, h)) = rw e (ground arith)
due_complete now r (inr (e, (u, f, h))) = rw (e, f) (ground arith)

due_rows-Among :
    (now : ℕ) (locked : ℕ → Bool) (r : Row) (rs : List Row)
    → find_row r.id rs ≡ some r
    → IsDue now locked r
    → Among r (due_rows now locked rs)
unfolding due_rows find_row
due_rows-Among now locked r [] found d = cc
due_rows-Among now locked r (q ∷ qs) found d = elim (Bool-cases (q.id == r.id)) [
  | inl same ↦
      let e : q ≡ r = ground (arith, found, same) in
      let pass : (due now q && not (locked q.id)) ≡ true =
        subst (λ x. (due now x && not (locked x.id)) ≡ true) (sym e)
          (rw (due_complete now r d.0, d.1) refl) in
      rw pass (
        subst (λ x. Among r (insert_ordered x (due_rows now locked qs))) (sym e)
          (insert_ordered-Among_self r (due_rows now locked qs)))
  | inr other ↦
      let rest = due_rows-Among now locked r qs (ground (arith, found, other)) d in
      elim (Bool-cases (due now q && not (locked q.id))) [
        | inl h ↦ rw h (insert_ordered-Among q r (due_rows now locked qs) rest)
        | inr h ↦ rw h rest
      ]
]

-- The row is in the list, or the list is full of rows that precede it.
abbrev pub IsServed : ℕ → List Row → Row → Type 0
IsServed limit rs r = Any (λ s. s ≡ r) rs ⊎ ((length rs ≡ limit) × All (λ s. Precedes s r) rs)

Among-Precedes : (q r : Row) (rs : List Row) → All (Precedes q) rs → Among r rs → Precedes q r
Among-Precedes q r [] h a = absurd a
Among-Precedes q r (s ∷ ss) h (inl e) = subst (λ x. Precedes q x) e h.0
Among-Precedes q r (s ∷ ss) h (inr a) = Among-Precedes q r ss h.1 a

take-IsServed :
    (n : ℕ) (r : Row) (rs : List Row) → InOrder rs → Among r rs → IsServed n (take n rs) r
take-IsServed zero r rs h a = inr (refl, tt)
take-IsServed (suc n) r [] h a = absurd a
take-IsServed (suc n) r (q ∷ qs) h (inl e) = inl (inl e)
take-IsServed (suc n) r (q ∷ qs) h (inr a) = elim (take-IsServed n r qs h.1 a) [
  | inl k ↦ inl (inr k)
  | inr (full, first) ↦ inr (omega (arith, full), (Among-Precedes q r qs h.0 a, first))
]

-- A due row of the table that nobody holds is selected, unless the limit is reached by rows that
-- precede it.
pub select_due-IsServed :
    (now : ℕ) (locked : ℕ → Bool) (limit : ℕ) (rows : List Row) (r : Row)
    → find_row r.id rows ≡ some r
    → IsDue now locked r
    → IsServed limit (select_due now locked limit rows) r
unfolding select_due
select_due-IsServed now locked limit rows r found d =
    take-IsServed limit r (due_rows now locked rows) (due_rows-InOrder now locked rows)
      (due_rows-Among now locked r rows found d)
