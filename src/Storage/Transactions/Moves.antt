-- ===== src/Storage/Transactions/Moves.antt =====
-- storage/transaction/mysql/: every statement changes the tables in the allowed ways only, with one
-- rule for each way to build a body.
use reliable_messaging.Base.{ℕ, suc, Bool, true, false, List, ◌≡◌, refl, arith, Result, ok, err}
use mathlib.Core.Path.{subst}
use reliable_messaging.Base.Bytes.{Bytes}
use reliable_messaging.Storage.Transactions.Rows.{
  RequestRow, ExecutionRow, WitnessRow, Tables, count_where, update_where, has_request_key, has_key,
  has_keys,
}
use reliable_messaging.Storage.Transactions.Monad.{
  TxError, TxIo, Tx, pure, continue, ◌>>=◌, reject, lift, query, stepped, exec,
}
use reliable_messaging.Storage.Transactions.Granting.{
  insert_new, with_executions, with_requests, with_witnesses, add_request, add_execution,
  add_witness, activate, activated,
}
use reliable_messaging.Storage.Transactions.Ending.{update_executions, update_witnesses}
use reliable_messaging.Storage.Transactions.Evolution.{
  Evolves, Follows, Moved, Moved-refl, Moved-trans,
}
use reliable_messaging.Storage.Transactions.Changes.{
  executions_updated, witnesses_updated, execution_inserted, witness_inserted,
}

pub record Moves {A : Type 0} (m : Tx A) : Type 0 where
  pub at :
      (io : TxIo) (k : ℕ) (t : Tables) (a : A) (j : ℕ) (u : Tables)
      → m io k t ≡ ok (a, j, u)
      → Moved t u

moved_same : (t u : Tables) → t ≡ u → Moved t u
moved_same t u e = subst (Moved t) (e) (Moved-refl t)

module _ {A : Type 0} where
  pub Moves-pure : (a : A) → Moves (pure a)
  unfolding pure
  Moves-pure a = record { at = λ io k t b j u e. moved_same t u (cc) }

  lift-same :
      (r : Result TxError A) (io : TxIo) (k : ℕ) (t : Tables) (a : A) (j : ℕ) (u : Tables)
      → lift r io k t ≡ ok (a, j, u)
      → t ≡ u
  unfolding lift
  lift-same (ok b) io k t a j u e = cc
  lift-same (err f) io k t a j u e = cc

  pub Moves-lift : (r : Result TxError A) → Moves (lift r)
  Moves-lift r = record { at = λ io k t a j u e. moved_same t u (lift-same r io k t a j u e) }

  query-same :
      (q : Tables → Result TxError A) (io : TxIo) (k : ℕ) (t : Tables) (a : A) (j : ℕ) (u : Tables)
      → query q io k t ≡ ok (a, j, u)
      → t ≡ u
  unfolding query
  query-same q io k t a j u e = ground (arith, lift-same (q t) io (suc k) t a j u)

  pub Moves-query : (q : Tables → Result TxError A) → Moves (query q)
  Moves-query q = record { at = λ io k t a j u e. moved_same t u (query-same q io k t a j u e) }

  stepped_moves :
      (t : Tables) (k : ℕ) (r : Result TxError (A × Tables)) (a : A) (j : ℕ) (u : Tables)
      → ((b : A) (v : Tables) → r ≡ ok (b, v) → Moved t v)
      → stepped k r ≡ ok (a, j, u)
      → Moved t u
  stepped_moves t k (ok (b, v)) a j u h e = subst (Moved t) (cc) (h b v refl)
  stepped_moves t k (err f) a j u h e = absurd (cc)

  pub Moves-exec :
      (w : Tables → Result TxError (A × Tables))
      → ((t : Tables) (b : A) (v : Tables) → w t ≡ ok (b, v) → Moved t v)
      → Moves (exec w)
  unfolding exec
  Moves-exec w h = record {
    at = λ io k t a j u e. stepped_moves t k (w t) a j u (h t) (ground (arith, e));
  }

pub Moves-reject : (b : Bool) (f : TxError) → Moves (reject b f)
unfolding reject
Moves-reject true f = record { at = λ io k t a j u e. absurd (cc) }
Moves-reject false f = record { at = λ io k t a j u e. moved_same t u (cc) }

module _ {A B : Type 0} where
  continue_moves :
      (f : A → Tx B) (io : TxIo) (t : Tables) (r : Result TxError (A × ℕ × Tables)) (b : B) (j : ℕ)
      (u : Tables)
      → ((a : A) (i : ℕ) (v : Tables) → r ≡ ok (a, i, v) → Moved t v)
      → ((a : A) → Moves (f a))
      → continue r f io ≡ ok (b, j, u)
      → Moved t u
  continue_moves f io t (ok (a, i, v)) b j u first rest e =
      Moved-trans t v u (first a i v refl) ((rest a).at io i v b j u e)
  continue_moves f io t (err g) b j u first rest e = absurd (cc)

  pub Moves-bind : (m : Tx A) (f : A → Tx B) → Moves m → ((a : A) → Moves (f a)) → Moves (m >>= f)
  unfolding ◌>>=◌
  Moves-bind m f first rest = record {
    at = λ io k t b j u e. continue_moves f io t (m io k t) b j u (first.at io k t) rest e;
  }

pub Moves-update_executions :
    (test : ExecutionRow → Bool) (f : ExecutionRow → ExecutionRow)
    → ((r : ExecutionRow) → test r ≡ true → Evolves r (f r))
    → Moves (update_executions test f)
unfolding update_executions
Moves-update_executions test f h =
    Moves-exec
      (λ (t : Tables).
        ok (
          count_where test t.executions,
          record t { executions = update_where test f t.executions },
        ))
      (λ t n v e. subst (Moved t) (cc) (executions_updated test f t h))

pub Moves-update_witnesses :
    (test : WitnessRow → Bool) (f : WitnessRow → WitnessRow)
    → ((w : WitnessRow) → test w ≡ true → Follows w (f w))
    → Moves (update_witnesses test f)
unfolding update_witnesses
Moves-update_witnesses test f h =
    Moves-exec
      (λ (t : Tables).
        ok (count_where test t.witnesses, record t { witnesses = update_where test f t.witnesses }))
      (λ t n v e. subst (Moved t) (cc) (witnesses_updated test f t h))

requests_moved : (t : Tables) (rows : List RequestRow) → Moved t (record t { requests = rows })
requests_moved t rows = record {
  same_bindings = refl;
  executions_kept = (Moved-refl t).executions_kept;
  witnesses_kept = (Moved-refl t).witnesses_kept;
  keys_kept = λ k. k;
}

with_requests-moved :
    (t : Tables) (r : Result TxError (List RequestRow)) (b : Unit {0}) (v : Tables)
    → with_requests t r ≡ ok (b, v)
    → Moved t v
with_requests-moved t (ok rows) b v e = subst (Moved t) (cc) (requests_moved t rows)
with_requests-moved t (err f) b v e = absurd (cc)

with_executions-moved :
    (t : Tables) (r : Result TxError (List ExecutionRow)) (b : Unit {0}) (v : Tables)
    → ((rows : List ExecutionRow) → r ≡ ok rows → Moved t (record t { executions = rows }))
    → with_executions t r ≡ ok (b, v)
    → Moved t v
with_executions-moved t (ok rows) b v h e = subst (Moved t) (cc) (h rows refl)
with_executions-moved t (err f) b v h e = absurd (cc)

with_witnesses-moved :
    (t : Tables) (r : Result TxError (List WitnessRow)) (b : Unit {0}) (v : Tables)
    → ((rows : List WitnessRow) → r ≡ ok rows → Moved t (record t { witnesses = rows }))
    → with_witnesses t r ≡ ok (b, v)
    → Moved t v
with_witnesses-moved t (ok rows) b v h e = subst (Moved t) (cc) (h rows refl)
with_witnesses-moved t (err f) b v h e = absurd (cc)

pub Moves-add_request : (row : RequestRow) → Moves (add_request row)
unfolding add_request
Moves-add_request row =
    Moves-exec
      (λ (t : Tables).
        with_requests t (insert_new (has_request_key row.request_key) row t.requests))
      (λ t b v e.
        with_requests-moved t (insert_new (has_request_key row.request_key) row t.requests) b v e)

pub Moves-add_execution : (row : ExecutionRow) → Moves (add_execution row)
unfolding add_execution
Moves-add_execution row =
    Moves-exec
      (λ (t : Tables). with_executions t (insert_new (has_key row.execution_key) row t.executions))
      (λ t b v e.
        with_executions-moved t (insert_new (has_key row.execution_key) row t.executions) b v
          (execution_inserted row t) e)

pub Moves-add_witness : (row : WitnessRow) → Moves (add_witness row)
unfolding add_witness
Moves-add_witness row =
    Moves-exec
      (λ (t : Tables).
        with_witnesses t (insert_new (has_keys row.execution_key row.branch_key) row t.witnesses))
      (λ t b v e.
        with_witnesses-moved t
          (insert_new (has_keys row.execution_key row.branch_key) row t.witnesses) b v
          (witness_inserted row t) e)

pub Moves-activate : (request key : Bytes) → Moves (activate request key)
unfolding activate
Moves-activate request key =
    Moves-exec
      (λ (t : Tables). ok (
        tt,
        record t { requests = update_where (has_request_key request) (activated key) t.requests },
      ))
      (λ t b v e.
        subst (Moved t) (cc)
          (requests_moved t (update_where (has_request_key request) (activated key) t.requests)))

pub ruleset moves_rules = (
  Moves-pure, Moves-lift, Moves-query, Moves-reject, Moves-bind, Moves-add_request,
  Moves-add_execution, Moves-add_witness, Moves-activate,
)
