-- ===== src/Storage/Transactions/Changes.antt =====
-- storage/transaction/mysql/: one UPDATE or INSERT changes the tables as every statement may.
use reliable_messaging.Base.{
  ◌≤◌, Bool, true, false, List, none, ◌≡◌, refl, sym, ap, arith, if◌then◌else◌, Bool-cases, inl,
  inr, ok,
}
use mathlib.Core.Path.{subst}
use reliable_messaging.Base.Bytes.{Bytes, bytes_eq, bytes_eq_iff}
use reliable_messaging.Storage.Transactions.Rows.{
  ExecutionRow, WitnessRow, Tables, find_where, update_where, count_where, insert_last, has_key,
  has_keys,
}
use reliable_messaging.Storage.Transactions.Granting.{insert_new}
use reliable_messaging.Storage.Transactions.Updates.{
  find_where-update_where, find_where-insert_last, count_where-update_where,
  count_where-insert_last, count_where-none, insert_new-ok,
}
use reliable_messaging.Storage.Transactions.Evolution.{
  Evolves, Evolves-refl, Follows, Follows-refl, IsKeyed, Moved,
}

if_Evolves :
    (b : Bool) (r s : ExecutionRow) → (b ≡ true → Evolves r s) → Evolves r (if b then s else r)
if_Evolves true r s h = h refl
if_Evolves false r s h = Evolves-refl r

if_Follows :
    (b : Bool) (w v : WitnessRow) → (b ≡ true → Follows w v) → Follows w (if b then v else w)
if_Follows true w v h = h refl
if_Follows false w v h = Follows-refl w

pub executions_updated :
    (test : ExecutionRow → Bool) (f : ExecutionRow → ExecutionRow) (t : Tables)
    → ((r : ExecutionRow) → test r ≡ true → Evolves r (f r))
    → Moved t (record t { executions = update_where test f t.executions })
executions_updated test f t h = record {
  same_bindings = refl;
  executions_kept = λ key r e. (
    if test r then f r else r,
    find_where-update_where (has_key key) test f (same key) t.executions r e,
    if_Evolves (test r) r (f r) (h r),
  );
  witnesses_kept = λ key branch w e. (w, e, Follows-refl w);
  keys_kept = λ k. record {
    at_most_one = λ key.
        rw (count_where-update_where (has_key key) test f (same key) t.executions)
          (k.at_most_one key);
  };
}
  where
    same : (key : Bytes) (r : ExecutionRow) → test r ≡ true → has_key key (f r) ≡ has_key key r
    same key r e = ap (λ (k : Bytes). bytes_eq k key) (h r e).same_key

pub witnesses_updated :
    (test : WitnessRow → Bool) (f : WitnessRow → WitnessRow) (t : Tables)
    → ((w : WitnessRow) → test w ≡ true → Follows w (f w))
    → Moved t (record t { witnesses = update_where test f t.witnesses })
witnesses_updated test f t h = record {
  same_bindings = refl;
  executions_kept = λ key r e. (r, e, Evolves-refl r);
  witnesses_kept = λ key branch w e. (
    if test w then f w else w,
    find_where-update_where (has_keys key branch) test f (same key branch) t.witnesses w e,
    if_Follows (test w) w (f w) (h w),
  );
  keys_kept = λ k. k;
}
  where
    same :
        (key branch : Bytes) (w : WitnessRow)
        → test w ≡ true
        → has_keys key branch (f w) ≡ has_keys key branch w
    same key branch w e = simp ((h w e).same_key, (h w e).same_branch) refl

inserted_key :
    (row : ExecutionRow) (rows : List ExecutionRow)
    → find_where (has_key row.execution_key) rows ≡ none
    → IsKeyed rows
    → (key : Bytes) → count_where (has_key key) (insert_last row rows) ≤ 1
inserted_key row rows fresh k key =
    rw (count_where-insert_last (has_key key) row rows) (elim (Bool-cases (has_key key row)) [
      | inl e ↦
          let same = (bytes_eq_iff row.execution_key key).0 e in
          let empty = count_where-none (has_key row.execution_key) rows fresh in
          let here : count_where (has_key key) rows ≡ 0 =
            subst (λ b. count_where (has_key b) rows ≡ 0) (same) empty in
          ground (arith, here)
      | inr e ↦ ground (arith, k.at_most_one key, e)
    ])

pub execution_inserted :
    (row : ExecutionRow) (t : Tables) (rows : List ExecutionRow)
    → insert_new (has_key row.execution_key) row t.executions ≡ ok rows
    → Moved t (record t { executions = rows })
execution_inserted row t rows h =
    let (same, fresh) = insert_new-ok (has_key row.execution_key) row t.executions rows h in
    subst (λ rs. Moved t (record t { executions = rs })) (sym same)
      (record {
        same_bindings = refl;
        executions_kept = λ key r e.
            (r, find_where-insert_last (has_key key) row t.executions r e, Evolves-refl r);
        witnesses_kept = λ key branch w e. (w, e, Follows-refl w);
        keys_kept = λ k. record { at_most_one = inserted_key row t.executions fresh k };
      })

pub witness_inserted :
    (row : WitnessRow) (t : Tables) (rows : List WitnessRow)
    → insert_new (has_keys row.execution_key row.branch_key) row t.witnesses ≡ ok rows
    → Moved t (record t { witnesses = rows })
witness_inserted row t rows h =
    let (same, fresh) =
      insert_new-ok (has_keys row.execution_key row.branch_key) row t.witnesses rows h in
    subst (λ rs. Moved t (record t { witnesses = rs })) (sym same)
      (record {
        same_bindings = refl;
        executions_kept = λ key r e. (r, e, Evolves-refl r);
        witnesses_kept = λ key branch w e.
            (w, find_where-insert_last (has_keys key branch) row t.witnesses w e, Follows-refl w);
        keys_kept = λ k. k;
      })
