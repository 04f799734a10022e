-- ===== src/Storage/Transactions/Once.antt =====
-- storage/transaction/mysql/: an execution ends once.
use reliable_messaging.Base.{
  ℕ, Bool, true, false, not, some, ◌≡◌, ◌≢◌, refl, sym, arith, ◌==◌, length, ok,
}
use mathlib.Core.Path.{subst}
use reliable_messaging.Base.Bytes.{Bytes}
use reliable_messaging.Env.{Env}
use reliable_messaging.Transaction.Plan.{stale_execution, transaction_required}
use reliable_messaging.Transaction.Execution.{Binding, Execution}
use reliable_messaging.Transaction.Codec.{Json}
use reliable_messaging.Storage.Transactions.Rows.{
  ExecutionRow, Tables, find_where, update_where, has_key,
}
use reliable_messaging.Storage.Transactions.Monad.{protocol, TxIo, Tx, pure, ◌>>=◌, reject}
use reliable_messaging.Storage.Transactions.Reading.{key_of}
use reliable_messaging.Storage.Transactions.Ending.{
  is_prepared, held, to_committed, waits, witness_committed, update_witnesses, Guard,
  commit_witness, begin_prepare, abort, bind, run_local,
}
use reliable_messaging.Storage.Transactions.Updates.{find_where-update_where}
use reliable_messaging.Storage.Transactions.Evolution.{IsKeyed, Moved-trans}
use reliable_messaging.Storage.Transactions.Moves.{Moves-reject, Moves-update_witnesses}
use reliable_messaging.Storage.Transactions.Bodies
use reliable_messaging.Storage.Transactions.Steps.{Steps, Steps-Moved}
use reliable_messaging.Storage.Transactions.Calls.{Ends-abort, Ends-run_local}
use reliable_messaging.Storage.Transactions.Inversion.{
  >>=-ok, pure-ok, one_updated, in_transaction-ok,
}
use reliable_messaging.Storage.Transactions.Fencing.{
  HasEnded, HasEnded-Moved, updated_row, abort-ends, abort-refused, begin_prepare-refused,
  run_local-refused,
}

-- What a body returns.
pub record Returns {A : Type 0} (P : A → Type 0) (m : Tx A) : Type 0 where
  pub at :
      (io : TxIo) (k : ℕ) (t : Tables) (a : A) (j : ℕ) (u : Tables) → m io k t ≡ ok (a, j, u) → P a

pub Returns-pure : {A : Type 0} (P : A → Type 0) (a : A) → P a → Returns P (pure a)
Returns-pure P a h = record { at = λ io k t b j u e. subst P (sym (pure-ok a io k t b j u e).0) h }

pub Returns-bind :
    {A B : Type 0} (P : B → Type 0) (m : Tx A) (f : A → Tx B)
    → ((a : A) → Returns P (f a))
    → Returns P (m >>= f)
Returns-bind P m f h = record {
  at = λ io k t b j u e.
      let (a, i, v, _, rest) = >>=-ok m f io k t b j u e in (h a).at io i v b j u rest;
}

module _ (env : Env) (json : Json) where
  abbrev Guards : Execution → Guard → Type 0
  Guards e g = g.execution ≡ e

  bind-Guards :
      (s : Binding) (has_tx : Bool) (now : ℕ) (e : Execution)
      → Returns (Guards e) (bind env json s has_tx now e)
  unfolding bind
  bind-Guards s has_tx now e = search (Returns-bind, Returns-pure) depth 14

  commit_witness-ends :
      (g : Guard) (io : TxIo) (k : ℕ) (t : Tables) (g' : Guard) (j : ℕ) (u : Tables)
      → IsKeyed t.executions
      → commit_witness env json g io k t ≡ ok (g', j, u)
      → HasEnded (key_of env json g.execution) u
  unfolding commit_witness
  commit_witness-ends g io k t g' j u keyed ran =
      let key = key_of env json g.execution in
      let (_, i₁, t₁, r₁, h₁) =
        >>=-ok (reject g.is_committed (protocol transaction_required)) _ io k t g' j u ran in
      let (n, i₂, t₂, r₂, h₂) =
        >>=-ok (update_witnesses (waits key) witness_committed) _ io i₁ t₁ g' j u h₁ in
      let (_, i₃, t₃, r₃, h₃) =
        >>=-ok
          (reject (not (n == length g.execution.plan.input.branches)) (protocol stale_execution)) _
          io i₂ t₂ g' j u h₂ in
      let m₁ =
        (Moves-reject g.is_committed (protocol transaction_required)).at io k t tt i₁ t₁ r₁ in
      let m₂ =
        (Moves-update_witnesses (waits key) witness_committed (Bodies.committed-Follows key)).at io
          i₁ t₁ n i₂ t₂ r₂ in
      let m₃ =
        (Moves-reject (not (n == length g.execution.plan.input.branches))
            (protocol stale_execution)).at
          io i₂ t₂ tt i₃ t₃ r₃ in
      let m = Moved-trans t t₂ t₃ (Moved-trans t t₁ t₂ m₁ m₂) m₃ in
      let test = held key g.execution.token in
      let (i, one, last) =
        one_updated test to_committed (protocol stale_execution) _ io i₃ t₃ g' j u h₃ in
      let (r, at, yes_row) =
        updated_row key g.execution.token test t₃ (m.keys_kept keyed) (λ q f. f)
          (omega (arith, one)) in
      let now_at =
        find_where-update_where (has_key key) test to_committed (λ q f. refl) t₃.executions r at in
      let ends =
        pure-ok (record g { is_committed = true }) io i
          (record t₃ { executions = update_where test to_committed t₃.executions }) g' j u last in
      subst (HasEnded key) (ends.1) (
        the_row key (record t₃ { executions = update_where test to_committed t₃.executions })
          (to_committed r) (simp (now_at, yes_row) refl) refl)
    where
      the_row :
          (key : Bytes) (v : Tables) (r : ExecutionRow)
          → find_where (has_key key) v.executions ≡ some r
          → is_prepared r.state ≡ false
          → HasEnded key v
      the_row key v r at e = record { row = r; found = at; ended = e }

  pub run_local-ends :
      (s : Binding) (e : Execution) (io : TxIo) (t : Tables) (g : Guard)
      → IsKeyed t.executions
      → (run_local env json s io e t).0 ≡ ok g
      → HasEnded (key_of env json e) (run_local env json s io e t).1
  unfolding run_local
  run_local-ends s e io t g keyed done =
      let (k, u, ran, same) =
        in_transaction-ok io (bind env json s true io.now e >>= commit_witness env json) t g done in
      let (b, i, v, bound, committed_one) =
        >>=-ok (bind env json s true io.now e) (commit_witness env json) io 1 t g k u ran in
      let m = (Bodies.Moves-guard_bind env json s true io.now e).at io 1 t b i v bound in
      let ends = commit_witness-ends b io i v g k u (m.keys_kept keyed) committed_one in
      let of_e = (bind-Guards s true io.now e).at io 1 t b i v bound in
      subst (HasEnded (key_of env json e)) (sym same)
        (subst (λ x. HasEnded (key_of env json x) u) (of_e) ends)

  -- No call for the execution by any store passes: no host transaction commits it, its half messages
  -- are not started, and no abort answers that it aborted it.
  abbrev pub IsClosed : Execution → Tables → Type 0
  IsClosed e t =
      (s : Binding) (io : TxIo)
      → ((g : Guard) → (run_local env json s io e t).0 ≢ ok g)
        × ((begin_prepare env json s io e t).0 ≢ ok tt)
        × ((expired : Bool) → (abort env json s expired io e t).0 ≢ ok true)

  IsClosed-by_end :
      (e : Execution) (t : Tables)
      → IsKeyed t.executions
      → HasEnded (key_of env json e) t
      → IsClosed e t
  IsClosed-by_end e t keyed h s io = (
    run_local-refused env json s e t keyed h io,
    begin_prepare-refused env json s e t keyed h io,
    λ expired. abort-refused env json s e t keyed h expired io,
  )

  -- Over tables with unique execution keys: after an abort, by the owner of the lease or by
  -- reconciliation, that answered true, no later call passes for that execution.
  pub abort-closes :
      (s : Binding) (e : Execution) (expired : Bool) (io : TxIo) (t v : Tables)
      → IsKeyed t.executions
      → (abort env json s expired io e t).0 ≡ ok true
      → Steps env json (abort env json s expired io e t).1 v
      → IsClosed e v
  abort-closes s e expired io t v keyed done steps =
      let u = (abort env json s expired io e t).1 in
      let m = Steps-Moved env json u v steps in
      let here = abort-ends env json s e expired io t keyed done in
      let keyed_u = (Ends-abort env json s expired io e t).moved.keys_kept keyed in
      IsClosed-by_end e v (m.keys_kept keyed_u) (HasEnded-Moved (key_of env json e) u v here m)

  -- Over tables with unique execution keys: after a host transaction that committed an execution and
  -- whose commit was acknowledged, no later call passes for that execution.
  pub run_local-closes :
      (s : Binding) (e : Execution) (io : TxIo) (t v : Tables) (g : Guard)
      → IsKeyed t.executions
      → (run_local env json s io e t).0 ≡ ok g
      → Steps env json (run_local env json s io e t).1 v
      → IsClosed e v
  run_local-closes s e io t v g keyed done steps =
      let u = (run_local env json s io e t).1 in
      let m = Steps-Moved env json u v steps in
      let here = run_local-ends s e io t g keyed done in
      let keyed_u = (Ends-run_local env json s io e t).moved.keys_kept keyed in
      IsClosed-by_end e v (m.keys_kept keyed_u) (HasEnded-Moved (key_of env json e) u v here m)
