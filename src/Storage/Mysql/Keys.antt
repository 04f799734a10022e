-- ===== src/Storage/Mysql/Keys.antt =====
-- storage/mysql/: every operation keeps the primary key and the AUTO_INCREMENT counter in order.
use reliable_messaging.Base.{
  ℕ, ◌+◌, ◌<◌, Bool, ◌&&◌, List, [], ◌∷◌, none, ◌≡◌, refl, arith, All, ◌==◌, Bool-cases, inl, inr,
  ◌∙◌,
}
use reliable_messaging.Env.{Env}
use reliable_messaging.Storage.Mysql.Rows.{Row, Table, find_row, update_row, add_row}
use reliable_messaging.Storage.Mysql.Growth.{Writes, nothing, updates, inserts}
use reliable_messaging.Storage.Mysql.History.{run-Writes}
use reliable_messaging.Storage.Mysql.Operations.{Op, run, run_all}
use reliable_messaging.Storage.Mysql.Table.{
  Distinct, KeepsId, find_row-update_row, find_row-add_row,
}

-- The keys of one list of rows are in order below the counter.
pub record Keyed (n : ℕ) (rs : List Row) : Type 0 where
  pub distinct : Distinct rs
  pub below : All (λ r. r.id < n) rs
  pub pos_ids : All (λ r. 0 < r.id) rs

update_row-none :
    (key id : ℕ) (test : Row → Bool) (f : Row → Row) (rs : List Row)
    → KeepsId f
    → find_row id rs ≡ none
    → find_row id (update_row key test f rs) ≡ none
update_row-none key id test f rs keep h =
    rw (find_row-update_row key id test f rs keep, h) (ground arith)

pub update_row-Keyed :
    (n key : ℕ) (test : Row → Bool) (f : Row → Row) (rs : List Row)
    → KeepsId f
    → Keyed n rs
    → Keyed n (update_row key test f rs)
unfolding update_row
update_row-Keyed n key test f [] keep k = record { distinct = tt; below = tt; pos_ids = tt }
update_row-Keyed n key test f (r ∷ rs) keep k =
    let rest =
      update_row-Keyed n key test f rs keep
        (record { distinct = k.distinct.1; below = k.below.1; pos_ids = k.pos_ids.1 }) in
    let gone = update_row-none key r.id test f rs keep k.distinct.0 in
    elim (Bool-cases (r.id == key && test r)) [
      | inl hit ↦ rw hit (record {
        distinct = (rw (keep r) gone, rest.distinct);
        below = (rw (keep r) k.below.0, rest.below);
        pos_ids = (rw (keep r) k.pos_ids.0, rest.pos_ids);
      })
      | inr miss ↦ rw miss (record {
        distinct = (gone, rest.distinct);
        below = (k.below.0, rest.below);
        pos_ids = (k.pos_ids.0, rest.pos_ids);
      })
    ]

find_row-below : (n : ℕ) (rs : List Row) → All (λ r. r.id < n) rs → find_row n rs ≡ none
unfolding find_row
find_row-below n [] h = refl
find_row-below n (r ∷ rs) h = ground (arith, find_row-below n rs h.1)

add_row-Keyed :
    (n : ℕ) (rs : List Row) (q : Row) → q.id ≡ n → 0 < n → Keyed n rs → Keyed (n + 1) (add_row rs q)
unfolding add_row
add_row-Keyed n [] q e p k = record {
  distinct = (unfold find_row in refl, tt);
  below = (omega arith, tt);
  pos_ids = (omega arith, tt);
}
add_row-Keyed n (r ∷ rs) q e p k =
    let rest =
      add_row-Keyed n rs q e p
        (record { distinct = k.distinct.1; below = k.below.1; pos_ids = k.pos_ids.1 }) in
    record {
      distinct =
          (find_row-add_row r.id rs q ∙ rw k.distinct.0 (ground (arith, k.below.0)), rest.distinct);
      below = (omega (arith, k.below.0), rest.below);
      pos_ids = (k.pos_ids.0, rest.pos_ids);
    }

-- The primary key holds, and the counter is ahead of every id.
pub record IsTable (t : Table) : Type 0 where
  pub keyed : Keyed t.next_id t.rows
  pub next_pos : 0 < t.next_id

pub Writes-IsTable : {t u : Table} → Writes t u → IsTable t → IsTable u
Writes-IsTable nothing k = k
Writes-IsTable (updates {u = u} key test f w g) k =
    let v = Writes-IsTable w k in
    record {
      keyed = update_row-Keyed u.next_id key test f u.rows (λ r. (g r).same_id) v.keyed;
      next_pos = v.next_pos;
    }
Writes-IsTable (inserts {u = u} q w e) k =
    let v = Writes-IsTable w k in
    record {
      keyed = add_row-Keyed u.next_id u.rows q e v.next_pos v.keyed;
      next_pos = omega (arith, v.next_pos);
    }

-- Any sequence of operations keeps the primary key unique, and the counter positive and ahead of
-- every id.
pub run_all-IsTable :
    (env : Env) (ops : List Op) (t : Table) → IsTable t → IsTable (run_all env ops t)
unfolding run_all
run_all-IsTable env [] t k = k
run_all-IsTable env (op ∷ ops) t k =
    run_all-IsTable env ops (run env op t) (Writes-IsTable (run-Writes env op t) k)
