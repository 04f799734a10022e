-- ===== src/Storage/Transactions/Inserting.antt =====
-- storage/transaction/mysql/store.go: what `insertExecution` leaves in the tables.
use reliable_messaging.Base.{
  ℕ, ◌/◌, Bool, true, false, ◌≡◌, refl, sym, ◌∙◌, ap, arith, List, [], ◌∷◌, none, some, Result, ok,
  err, if◌then◌else◌,
}
use mathlib.Core.Path.{subst}
use reliable_messaging.Base.Bytes.{bytes_eq_refl}
use reliable_messaging.Env.{Env}
use reliable_messaging.Transaction.Execution.{Request, Execution, references}
use reliable_messaging.Transaction.Codec.{Json, encode_plan}
use reliable_messaging.Storage.Transactions.Rows.{
  ExecutionRow, Tables, find_where, insert_last, has_key,
}
use reliable_messaging.Storage.Transactions.Monad.{
  TxError, driver_failed, TxIo, lift, exec, stepped,
}
use reliable_messaging.Storage.Transactions.Reading.{key_of, lift_codec}
use reliable_messaging.Storage.Transactions.Granting.{
  with_executions, add_execution, execution_row, insert_execution,
}
use reliable_messaging.Storage.Transactions.Updates.{insert_new-ok}
use reliable_messaging.Storage.Transactions.Inversion.{>>=-ok, lift-ok}
use reliable_messaging.Storage.Transactions.Reads.{codec-ok}
use reliable_messaging.Storage.Transactions.Bodies

-- The execution's row lies under its key, with its token, and holds its plan.
pub record IsInserted (env : Env) (json : Json) (e : Execution) (t : Tables) : Type 0 where
  pub row : ExecutionRow
  pub stored : find_where (has_key (key_of env json e)) t.executions ≡ some row
  pub same_token : row.token ≡ e.token
  pub same_fence : row.fence ≡ e.fence
  pub same_epoch : row.writer_epoch ≡ e.writer_epoch
  pub same_lease : row.lease_until ≡ e.lease_until / 1000
  pub holds_plan : encode_plan json e.plan ≡ ok row.plan

find_where-insert_last_new :
    {A : Type 0} (test : A → Bool) (q : A) (rows : List A)
    → find_where test rows ≡ none
    → test q ≡ true
    → find_where test (insert_last q rows) ≡ some q
unfolding find_where insert_last
find_where-insert_last_new test q [] h p = rw p refl
find_where-insert_last_new test q (r ∷ rs) h p =
    ground (arith, find_where-insert_last_new test q rs)

stepped-ok :
    {A : Type 0} (failed : Bool) (k : ℕ) (r : Result TxError (A × Tables)) (a : A) (j : ℕ)
    (u : Tables)
    → (if failed then err driver_failed else stepped k r) ≡ ok (a, j, u)
    → r ≡ ok (a, u)
stepped-ok true k r a j u h = absurd (cc)
stepped-ok false k (err e) a j u h = absurd (cc)
stepped-ok false k (ok (b, v)) a j u h = let e : b ≡ a = cc in let f : v ≡ u = cc in rw (e, f) refl

with_executions-ok :
    (row : ExecutionRow) (t : Tables) (o : Result TxError (List ExecutionRow)) (u : Tables)
    → with_executions t o ≡ ok (tt, u)
    → (rows : List ExecutionRow) × (o ≡ ok rows) × (rows ≡ u.executions)
with_executions-ok row t (err e) u h = absurd (cc)
with_executions-ok row t (ok rows) u h =
    let same : record t { executions = rows } ≡ u = cc in
    (rows, refl, ap (λ (v : Tables). v.executions) same)

add_execution-stores :
    (row : ExecutionRow) (io : TxIo) (k : ℕ) (t : Tables) (j : ℕ) (u : Tables)
    → add_execution row io k t ≡ ok (tt, j, u)
    → find_where (has_key row.execution_key) u.executions ≡ some row
unfolding add_execution exec
add_execution-stores row io k t j u h =
    let ran = stepped-ok (io.fails k) k _ tt j u h in
    let (rows, inserted, same) = with_executions-ok row t _ u ran in
    let (last, fresh) = insert_new-ok (has_key row.execution_key) row t.executions rows inserted in
    subst (λ xs. find_where (has_key row.execution_key) xs ≡ some row) (sym last ∙ same)
      (find_where-insert_last_new (has_key row.execution_key) row t.executions fresh
        (bytes_eq_refl row.execution_key))

-- The row of the execution that was inserted is found under its key.
pub insert_execution-IsInserted :
    (env : Env) (json : Json) (q : Request) (e : Execution) (io : TxIo) (k : ℕ) (t : Tables) (j : ℕ)
    (u : Tables)
    → insert_execution env json q e io k t ≡ ok (tt, j, u)
    → IsInserted env json e u
unfolding insert_execution
insert_execution-IsInserted env json q e io k t j u h =
    let (text, i₁, t₁, encoded, h₁) =
      >>=-ok (lift (lift_codec (encode_plan json e.plan))) _ io k t tt j u h in
    let (_, i₂, t₂, added, h₂) =
      >>=-ok (add_execution (execution_row env json q e text)) _ io i₁ t₁ tt j u h₁ in
    let row = execution_row env json q e text in
    let here = add_execution-stores row io i₁ t₁ i₂ t₂ added in
    let later =
      (Bodies.Moves-insert_witnesses env json e (references env e)).at io i₂ t₂ tt j u h₂ in
    let (s, found, kept) = later.executions_kept (key_of env json e) row here in
    record {
      row = s;
      stored = found;
      same_token = kept.same_token;
      same_fence = kept.same_fence;
      same_epoch = kept.same_epoch;
      same_lease = kept.same_lease;
      holds_plan =
          codec-ok (encode_plan json e.plan) text
            (lift-ok (lift_codec (encode_plan json e.plan)) io k t text i₁ t₁ encoded)
          ∙ ap ok (sym kept.same_plan);
    }
