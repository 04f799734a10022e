-- ===== src/Storage/Transactions/Starting.antt =====
-- storage/transaction/mysql/store.go: `BeginPrepare` starts the half messages of an execution once.
use reliable_messaging.Base.{true, some, ◌≡◌, ◌≢◌, refl, sym, ◌∙◌, arith, ok}
use mathlib.Core.Path.{subst}
use reliable_messaging.Base.Bytes.{Bytes}
use reliable_messaging.Env.{Env}
use reliable_messaging.Transaction.Plan.{stale_execution, binding_mismatch}
use reliable_messaging.Transaction.Execution.{Binding, Execution}
use reliable_messaging.Transaction.Codec.{Json}
use reliable_messaging.Storage.Transactions.Rows.{
  ExecutionRow, Tables, find_where, update_where, has_key,
}
use reliable_messaging.Storage.Transactions.Monad.{protocol, TxIo}
use reliable_messaging.Storage.Transactions.Reading.{key_of, binding_in}
use reliable_messaging.Storage.Transactions.Ending.{
  startable, started, begin_prepare_in, begin_prepare, foreign_execution,
}
use reliable_messaging.Storage.Transactions.Updates.{find_where-update_where}
use reliable_messaging.Storage.Transactions.Evolution.{IsKeyed}
use reliable_messaging.Storage.Transactions.Bodies
use reliable_messaging.Storage.Transactions.Steps.{Steps, Steps-Moved}
use reliable_messaging.Storage.Transactions.Calls.{Ends-begin_prepare}
use reliable_messaging.Storage.Transactions.Inversion.{
  >>=-ok, one_updated, if_ok, in_transaction-ok,
}
use reliable_messaging.Storage.Transactions.Fencing.{
  HasStarted, HasStarted-Moved, updated_row, none_startable,
}

module _ (env : Env) (json : Json) where
  begin_prepare-starts :
      (s : Binding) (e : Execution) (io : TxIo) (t : Tables)
      → IsKeyed t.executions
      → (begin_prepare env json s io e t).0 ≡ ok tt
      → HasStarted (key_of env json e) (begin_prepare env json s io e t).1
  unfolding begin_prepare begin_prepare_in
  begin_prepare-starts s e io t keyed done =
      let key = key_of env json e in
      let test = startable io.now key e.token in
      let (_, h₁, same₁) =
        if_ok (foreign_execution env json s e) (protocol binding_mismatch) t _ tt done in
      let (k, u, ran, same₂) =
        in_transaction-ok io (begin_prepare_in env json s io.now e) t tt h₁ in
      let (_, i, v, before, after) = >>=-ok (binding_in env json s true) _ io 1 t tt k u ran in
      let m = (Bodies.Moves-binding_in env json s true).at io 1 t tt i v before in
      let (j, one, last) =
        one_updated test started (protocol stale_execution) _ io i v tt k u after in
      let (r, at, yes_row) =
        updated_row key e.token test v (m.keys_kept keyed) (λ q f. ground (arith, f))
          (omega (arith, one)) in
      let now_at =
        find_where-update_where (has_key key) test started (λ q f. refl) v.executions r at in
      let w : Tables = record v { executions = update_where test started v.executions } in
      let kept = (Bodies.Moves-stored_plan_matches env json key e.plan).at io j w tt k u last in
      subst (HasStarted key) (sym (same₁ ∙ same₂)) (
        HasStarted-Moved key w u (the_start key w (started r) (simp (now_at, yes_row) refl) refl)
          kept)
    where
      the_start :
          (key : Bytes) (v : Tables) (r : ExecutionRow)
          → find_where (has_key key) v.executions ≡ some r
          → r.prepare_started ≡ true
          → HasStarted key v
      the_start key v r at e = record { row = r; found = at; begun = e }

  begin_prepare-restarted :
      (s : Binding) (e : Execution) (io : TxIo) (t : Tables)
      → IsKeyed t.executions
      → HasStarted (key_of env json e) t
      → (begin_prepare env json s io e t).0 ≢ ok tt
  unfolding begin_prepare begin_prepare_in
  begin_prepare-restarted s e io t keyed h done =
      let key = key_of env json e in
      let test = startable io.now key e.token in
      let (_, h₁, _) =
        if_ok (foreign_execution env json s e) (protocol binding_mismatch) t _ tt done in
      let (k, u, ran, _) = in_transaction-ok io (begin_prepare_in env json s io.now e) t tt h₁ in
      let (_, i, v, before, after) = >>=-ok (binding_in env json s true) _ io 1 t tt k u ran in
      let m = (Bodies.Moves-binding_in env json s true).at io 1 t tt i v before in
      let (_, one, _) = one_updated test started (protocol stale_execution) _ io i v tt k u after in
      let none =
        none_startable io.now key e.token v (m.keys_kept keyed) (HasStarted-Moved key t v h m) in
      omega (arith, one, none)

  -- Over tables with unique execution keys, the half messages of an execution are started at most
  -- once: after a start that passed, by any store, no later one passes.
  pub begin_prepare-once :
      (s s' : Binding) (e : Execution) (io io' : TxIo) (t v : Tables)
      → IsKeyed t.executions
      → (begin_prepare env json s io e t).0 ≡ ok tt
      → Steps env json (begin_prepare env json s io e t).1 v
      → (begin_prepare env json s' io' e v).0 ≢ ok tt
  begin_prepare-once s s' e io io' t v keyed done steps =
      let u = (begin_prepare env json s io e t).1 in
      let m = Steps-Moved env json u v steps in
      let here = begin_prepare-starts s e io t keyed done in
      let keyed_u = (Ends-begin_prepare env json s io e t).moved.keys_kept keyed in
      begin_prepare-restarted s' e io' v (m.keys_kept keyed_u)
        (HasStarted-Moved (key_of env json e) u v here m)
