-- ===== src/Storage/Transactions/Updates.antt =====
-- storage/transaction/mysql/schema.sql: what UPDATE and INSERT leave of the rows under a key.
use reliable_messaging.Base.{
  suc, ◌≤◌, ◌<◌, Bool, true, false, List, [], ◌∷◌, none, some, ◌≡◌, refl, ap, arith, if◌then◌else◌,
  ok, Bool-cases, Option-cases, inl, inr,
}
use reliable_messaging.Storage.Transactions.Rows.{
  find_where, update_where, count_where, insert_last,
}
use reliable_messaging.Storage.Transactions.Granting.{insert_new}

module _ {A : Type 0} (key : A → Bool) where
  pub find_where-test : (rows : List A) (r : A) → find_where key rows ≡ some r → key r ≡ true
  unfolding find_where
  find_where-test [] r h = cc
  find_where-test (x ∷ xs) r h = let ih = find_where-test xs r in ground (arith, ih, ap key)

  pub find_where-update_where :
      (test : A → Bool) (f : A → A)
      → ((r : A) → test r ≡ true → key (f r) ≡ key r)
      → (rows : List A) (r : A) → find_where key rows ≡ some r
      → find_where key (update_where test f rows) ≡ some (if test r then f r else r)
  unfolding find_where update_where
  find_where-update_where test f same [] r h = cc
  find_where-update_where test f same (x ∷ xs) r h =
      let ih = find_where-update_where test f same xs r in ground (arith, ih, same x, ap test, ap f)

  pub find_where-insert_last :
      (q : A) (rows : List A) (r : A)
      → find_where key rows ≡ some r
      → find_where key (insert_last q rows) ≡ some r
  unfolding find_where insert_last
  find_where-insert_last q [] r h = cc
  find_where-insert_last q (x ∷ xs) r h =
      let ih = find_where-insert_last q xs r in ground (arith, ih)

  pub count_where-update_where :
      (test : A → Bool) (f : A → A)
      → ((r : A) → test r ≡ true → key (f r) ≡ key r)
      → (rows : List A) → count_where key (update_where test f rows) ≡ count_where key rows
  unfolding count_where update_where
  count_where-update_where test f same [] = refl
  count_where-update_where test f same (x ∷ xs) =
      let ih = count_where-update_where test f same xs in ground (arith, ih, same x)

  pub count_where-insert_last :
      (q : A) (rows : List A)
      → count_where key (insert_last q rows)
        ≡ (if key q then suc (count_where key rows) else count_where key rows)
  unfolding count_where insert_last
  count_where-insert_last q [] = ground arith
  count_where-insert_last q (x ∷ xs) = let ih = count_where-insert_last q xs in ground (arith, ih)

  pub count_where-none : (rows : List A) → find_where key rows ≡ none → count_where key rows ≡ 0
  unfolding count_where find_where
  count_where-none [] h = refl
  count_where-none (x ∷ xs) h = let ih = count_where-none xs in ground (arith, ih)

  module _ (sub : A → Bool) (narrower : (r : A) → sub r ≡ true → key r ≡ true) where
    count_where_narrower : (rows : List A) → count_where sub rows ≤ count_where key rows
    unfolding count_where
    count_where_narrower [] = omega arith
    count_where_narrower (x ∷ xs) =
        let ih = count_where_narrower xs in ground (arith, ih, narrower x)

    -- Under a unique key, the rows that a narrower test selects are those of the key's row.
    pub count_where_unique :
        (rows : List A) (r : A)
        → find_where key rows ≡ some r
        → count_where key rows ≤ 1
        → sub r ≡ false
        → count_where sub rows ≡ 0
    unfolding count_where find_where
    count_where_unique [] r h u not_sub = refl
    count_where_unique (x ∷ xs) r h u not_sub =
        let ih = count_where_unique xs r in
        let rest = count_where_narrower xs in ground (arith, ih, rest, narrower x, ap sub)

    pub find_where_unique :
        (rows : List A)
        → count_where key rows ≤ 1
        → 0 < count_where sub rows
        → (r : A) × (find_where key rows ≡ some r) × (sub r ≡ true)
    find_where_unique rows u some_row = elim (Option-cases (find_where key rows)) [
      | inl e ↦ absurd (impossible e)
      | inr (r, e) ↦ elim (Bool-cases (sub r)) [
        | inl yes_sub ↦ (r, e, yes_sub)
        | inr no_sub ↦ absurd (other_row r e no_sub)
      ]
    ]
      where
        impossible : find_where key rows ≡ none → ⊥
        impossible e = omega (arith, count_where-none rows e, count_where_narrower rows)

        other_row : (r : A) → find_where key rows ≡ some r → sub r ≡ false → ⊥
        other_row r e no_sub = omega (arith, count_where_unique rows r e u no_sub)

pub insert_new-ok :
    {A : Type 0} (test : A → Bool) (row : A) (rows after : List A)
    → insert_new test row rows ≡ ok after
    → (after ≡ insert_last row rows) × (find_where test rows ≡ none)
insert_new-ok test row rows after h = ground arith
