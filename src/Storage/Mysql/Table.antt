-- ===== src/Storage/Mysql/Table.antt =====
-- What the statements of Rows do, read through `find_row`; well-formed tables.
use reliable_messaging.Base.{
  ℕ, Bool, false, List, [], ◌∷◌, Option, none, some, ◌≡◌, refl, arith, ◌==◌, if◌then◌else◌, ==_iff,
  Bool-cases, inl, inr,
}
use mathlib.Core.Path.{subst}
use reliable_messaging.Storage.Mysql.Rows.{Row, find_row, update_row, affected, add_row}

-- No two rows share an id.
abbrev pub Distinct : List Row → Type 0
Distinct [] = Unit
Distinct (r ∷ rs) = (find_row r.id rs ≡ none) × Distinct rs

-- An assignment that leaves the key alone.
abbrev pub KeepsId : (Row → Row) → Type 0
KeepsId f = (r : Row) → (f r).id ≡ r.id

abbrev pub updated : (Row → Bool) → (Row → Row) → Option Row → Option Row
updated test f none = none
updated test f (some r) = some (if test r then f r else r)

pub find_row-update_row :
    (id j : ℕ) (test : Row → Bool) (f : Row → Row) (rs : List Row)
    → KeepsId f
    → find_row j (update_row id test f rs)
      ≡ (if j == id then updated test f (find_row j rs) else find_row j rs)
unfolding find_row update_row
find_row-update_row id j test f [] keep = ground arith
find_row-update_row id j test f (r ∷ rs) keep =
    ground (arith, keep r, find_row-update_row id j test f rs keep)

pub affected-none :
    (id : ℕ) (test : Row → Bool) (rs : List Row) → find_row id rs ≡ none → affected id test rs ≡ 0
unfolding find_row affected
affected-none id test [] h = refl
affected-none id test (r ∷ rs) h = ground (arith, affected-none id test rs)

abbrev pub hit : (Row → Bool) → Option Row → Bool
hit test none = false
hit test (some r) = test r

-- Under the primary key a statement affects one row or none.
pub affected-eq :
    (id : ℕ) (test : Row → Bool) (rs : List Row)
    → Distinct rs
    → affected id test rs ≡ (if hit test (find_row id rs) then 1 else 0)
unfolding find_row affected
affected-eq id test [] h = refl
affected-eq id test (r ∷ rs) h = elim (Bool-cases (r.id == id)) [
  | inl same ↦
      let e : r.id ≡ id = (==_iff _ _).0 same in
      ground (arith, affected-none id test rs (subst (λ k. find_row k rs ≡ none) e h.0))
  | inr other ↦ rw other (affected-eq id test rs h.1)
]

pub find_row-add_row :
    (j : ℕ) (rs : List Row) (r : Row)
    → find_row j (add_row rs r)
      ≡ elim (find_row j rs) [ some q ↦ some q | none ↦ if r.id == j then some r else none ]
unfolding find_row add_row
find_row-add_row j [] r = ground arith
find_row-add_row j (q ∷ qs) r = ground (arith, find_row-add_row j qs r)

pub find_row-id : (j : ℕ) (rs : List Row) {r : Row} → find_row j rs ≡ some r → r.id ≡ j
unfolding find_row
find_row-id j [] h = cc
find_row-id j (q ∷ qs) {r} h = ground (arith, find_row-id j qs {r = r})
