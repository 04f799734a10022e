-- ===== src/Storage/Transactions/Fencing.antt =====
-- storage/transaction/mysql/: an execution ends once. After an abort that answered true no host
-- transaction commits the execution, and after a committed one no abort answers true.
use reliable_messaging.Base.{
  ℕ, ◌<◌, Bool, true, false, not, ◌||◌, some, ◌≡◌, ◌≢◌, refl, sym, ◌∙◌, arith, ◌==◌, if◌then◌else◌,
  Result, ok, err,
}
use mathlib.Core.Path.{subst}
use reliable_messaging.Base.Bytes.{Bytes, bytes_eq}
use reliable_messaging.Env.{Env}
use reliable_messaging.Transaction.Plan.{stale_execution, binding_mismatch, transaction_required}
use reliable_messaging.Transaction.Execution.{Binding, Execution, execution_valid}
use reliable_messaging.Transaction.Codec.{Json}
use reliable_messaging.Storage.Transactions.Rows.{
  ExecutionRow, Tables, find_where, count_where, has_key,
}
use reliable_messaging.Storage.Transactions.Monad.{
  TxError, protocol, driver_failed, TxIo, ◌>>=◌, reject, finished,
}
use reliable_messaging.Storage.Transactions.Reading.{key_of, binding_in}
use reliable_messaging.Storage.Transactions.Ending.{
  is_prepared, held, startable, started, abortable, to_aborted, bindable, guarded,
  update_executions, Guard, commit_witness, begin_prepare_in, begin_prepare, foreign_execution,
  abort_execution, abort_witnesses, abort_rest, abort, bind, run_local,
}
use reliable_messaging.Storage.Transactions.Updates.{
  find_where-update_where, find_where_unique, count_where_unique,
}
use reliable_messaging.Storage.Transactions.Evolution.{IsKeyed, Moved, Moved-trans}
use reliable_messaging.Storage.Transactions.Moves.{Moves-reject}
use reliable_messaging.Storage.Transactions.Bodies
use reliable_messaging.Storage.Transactions.Inversion.{
  >>=-ok, one_updated, update_executions-ok, finished-ok, if_ok, in_transaction-ok,
}

-- The execution's row says that it ended, or that its half messages were started.
pub record HasEnded (key : Bytes) (t : Tables) : Type 0 where
  pub row : ExecutionRow
  pub found : find_where (has_key key) t.executions ≡ some row
  pub ended : is_prepared row.state ≡ false

pub record HasStarted (key : Bytes) (t : Tables) : Type 0 where
  pub row : ExecutionRow
  pub found : find_where (has_key key) t.executions ≡ some row
  pub begun : row.prepare_started ≡ true

pub HasEnded-Moved : (key : Bytes) (t u : Tables) → HasEnded key t → Moved t u → HasEnded key u
HasEnded-Moved key t u h m =
    let (s, at, e) = m.executions_kept key h.row h.found in
    let same = e.settled h.ended in record { row = s; found = at; ended = rw same h.ended }

pub HasStarted-Moved :
    (key : Bytes) (t u : Tables) → HasStarted key t → Moved t u → HasStarted key u
HasStarted-Moved key t u h m =
    let (s, at, e) = m.executions_kept key h.row h.found in
    record { row = s; found = at; begun = e.started_kept h.begun }

module _ (key token : Bytes) (test : ExecutionRow → Bool) (t : Tables)
    (keyed : IsKeyed t.executions) where
  -- An UPDATE under the key and the prepared state that changes a row finds the key's row.
  pub updated_row :
      ((r : ExecutionRow) → test r ≡ true → held key token r ≡ true)
      → 0 < count_where test t.executions
      → (r : ExecutionRow) × (find_where (has_key key) t.executions ≡ some r) × (test r ≡ true)
  updated_row narrow positive =
      find_where_unique (has_key key) test (λ r e. let h = narrow r e in ground (arith, h))
        t.executions (keyed.at_most_one key) positive

  -- It changes no row of an execution that has ended.
  pub none_held :
      ((r : ExecutionRow) → test r ≡ true → held key token r ≡ true)
      → HasEnded key t
      → count_where test t.executions ≡ 0
  none_held narrow h =
      count_where_unique (has_key key) test (λ r e. let f = narrow r e in ground (arith, f))
        t.executions h.row h.found (keyed.at_most_one key) (refused_row (test h.row) (narrow h.row))
    where
      refused_row : (b : Bool) → (b ≡ true → held key token h.row ≡ true) → b ≡ false
      refused_row false f = refl
      refused_row true f = let g = f refl in ground (arith, g, h.ended)

-- A started execution is not started again.
pub none_startable :
    (now : ℕ) (key token : Bytes) (t : Tables)
    → IsKeyed t.executions
    → HasStarted key t
    → count_where (startable now key token) t.executions ≡ 0
none_startable now key token t keyed h =
    count_where_unique (has_key key) (startable now key token) (λ r e. ground (arith, e))
      t.executions h.row h.found (keyed.at_most_one key) (ground (arith, h.begun))

unless_none :
    (b : Bool) (t : Tables) (x : Result TxError Bool × Tables)
    → (if b then (ok false, t) else x).0 ≡ ok true
    → (b ≡ false) × (x.0 ≡ ok true) × ((if b then (ok false, t) else x).1 ≡ x.1)
unless_none true t x h = absurd (cc)
unless_none false t x h = (refl, h, refl)

module _ (env : Env) (json : Json) (s : Binding) (e : Execution) where
  abort_execution-ends :
      (expired : Bool) (io : TxIo) (k : ℕ) (t : Tables) (n j : ℕ) (u : Tables)
      → IsKeyed t.executions
      → abort_execution env json s expired io.now e io k t ≡ ok (n, j, u)
      → (n == 0) ≡ false
      → HasEnded (key_of env json e) u
  unfolding abort_execution
  abort_execution-ends expired io k t n j u keyed h some_row =
      let test = abortable expired io.now (key_of env json e) e.token in
      let (_, i, v, before, after) =
        >>=-ok (binding_in env json s false) (λ done. update_executions test to_aborted) io k t n j
          u h in
      let (count, same) = update_executions-ok test to_aborted io i v n j u after in
      let keyed_v =
        ((Bodies.Moves-binding_in env json s false).at io k t tt i v before).keys_kept keyed in
      let (r, at, yes_row) =
        updated_row (key_of env json e) e.token test v keyed_v (λ q f. ground (arith, f))
          (ground (arith, count, some_row)) in
      let now_at =
        find_where-update_where (has_key (key_of env json e)) test to_aborted (λ q f. refl)
          v.executions r at in
      subst (HasEnded (key_of env json e)) (sym same)
        (record { row = to_aborted r; found = simp (now_at, yes_row) refl; ended = refl })

  abort_rest-ok :
      (io : TxIo) (t : Tables) (o : Result TxError (ℕ × ℕ × Tables))
      → (abort_rest env json s io e t o).0 ≡ ok true
      → (n k : ℕ) × (u : Tables) × (o ≡ ok (n, k, u))
        × ((n == 0) ≡ false)
        × Moved u (abort_rest env json s io e t o).1
  abort_rest-ok io t (err f) h = absurd (cc)
  abort_rest-ok io t (ok (n, k, u)) h =
      let (some_row, run, same) =
        unless_none (n == 0) t (finished io.commit t (abort_witnesses env json s e io k u)) h in
      let (j, w, ran, ends) =
        finished-ok io.commit t (abort_witnesses env json s e io k u) true run in
      let moved = (Bodies.Moves-abort_witnesses env json s e).at io k u true j w ran in
      (n, k, u, refl, some_row, subst (Moved u) (sym (same ∙ ends)) moved)

  pub abort-ends :
      (expired : Bool) (io : TxIo) (t : Tables)
      → IsKeyed t.executions
      → (abort env json s expired io e t).0 ≡ ok true
      → HasEnded (key_of env json e) (abort env json s expired io e t).1
  unfolding abort
  abort-ends expired io t keyed h =
      let started_abort : Result TxError (ℕ × ℕ × Tables) =
        abort_execution env json s expired io.now e io 1 t in
      let (_, h₁, e₁) =
        if_ok (not (execution_valid e) || not (bytes_eq e.plan.input.owner s.owner))
          (protocol binding_mismatch) t _ true h in
      let (_, h₂, e₂) =
        if_ok (io.fails 0) driver_failed t (abort_rest env json s io e t started_abort) true h₁ in
      let (n, k, u, ran, some_row, moved) = abort_rest-ok io t started_abort h₂ in
      subst (HasEnded (key_of env json e)) (sym (e₁ ∙ e₂)) (
        HasEnded-Moved (key_of env json e) u _
          (abort_execution-ends expired io 1 t n k u keyed ran some_row) moved)

  -- An UPDATE of exactly one row, in a body behind `bindingIn`, does not pass once the row has ended.
  module _ (t : Tables) (keyed : IsKeyed t.executions) (h : HasEnded (key_of env json e) t) where
    pub abort-refused : (expired : Bool) (io : TxIo) → (abort env json s expired io e t).0 ≢ ok true
    unfolding abort abort_execution
    abort-refused expired io done =
        let test = abortable expired io.now (key_of env json e) e.token in
        let started_abort : Result TxError (ℕ × ℕ × Tables) =
          abort_execution env json s expired io.now e io 1 t in
        let (_, h₁, e₁) =
          if_ok (not (execution_valid e) || not (bytes_eq e.plan.input.owner s.owner))
            (protocol binding_mismatch) t _ true done in
        let (_, h₂, e₂) =
          if_ok (io.fails 0) driver_failed t (abort_rest env json s io e t started_abort) true h₁ in
        let (n, k, u, ran, some_row, moved) = abort_rest-ok io t started_abort h₂ in
        let (_, i, v, before, after) =
          >>=-ok (binding_in env json s false) (λ x. update_executions test to_aborted) io 1 t n k u
            ran in
        let m = (Bodies.Moves-binding_in env json s false).at io 1 t tt i v before in
        let (count, _) = update_executions-ok test to_aborted io i v n k u after in
        let none =
          none_held (key_of env json e) e.token test v (m.keys_kept keyed)
            (λ q f. ground (arith, f)) (HasEnded-Moved (key_of env json e) t v h m) in
        ground (arith, count, none, some_row)

    pub begin_prepare-refused : (io : TxIo) → (begin_prepare env json s io e t).0 ≢ ok tt
    unfolding begin_prepare begin_prepare_in
    begin_prepare-refused io done =
        let key = key_of env json e in
        let test = startable io.now key e.token in
        let (_, h₁, _) =
          if_ok (foreign_execution env json s e) (protocol binding_mismatch) t _ tt done in
        let (k, u, ran, _) = in_transaction-ok io (begin_prepare_in env json s io.now e) t tt h₁ in
        let (_, i, v, before, after) = >>=-ok (binding_in env json s true) _ io 1 t tt k u ran in
        let m = (Bodies.Moves-binding_in env json s true).at io 1 t tt i v before in
        let (_, one, _) =
          one_updated test started (protocol stale_execution) _ io i v tt k u after in
        let none =
          none_held key e.token test v (m.keys_kept keyed) (λ q f. ground (arith, f))
            (HasEnded-Moved key t v h m) in
        omega (arith, one, none)

    bind-refused :
        (io : TxIo) (g : Guard) (k : ℕ) (u : Tables)
        → bind env json s true io.now e io 1 t ≢ ok (g, k, u)
    unfolding bind
    bind-refused io g k u ran =
        let key = key_of env json e in
        let test = bindable io.now key e.token in
        let (_, i₁, t₁, r₁, h₁) =
          >>=-ok (reject (not true) (protocol transaction_required)) _ io 1 t g k u ran in
        let (_, i₂, t₂, r₂, h₂) =
          >>=-ok (reject (foreign_execution env json s e) (protocol binding_mismatch)) _ io i₁ t₁ g
            k u h₁ in
        let (_, i, v, before, after) = >>=-ok (binding_in env json s true) _ io i₂ t₂ g k u h₂ in
        let m₁ = (Moves-reject (not true) (protocol transaction_required)).at io 1 t tt i₁ t₁ r₁ in
        let m₂ =
          (Moves-reject (foreign_execution env json s e) (protocol binding_mismatch)).at io i₁ t₁ tt
            i₂ t₂ r₂ in
        let m₃ = (Bodies.Moves-binding_in env json s true).at io i₂ t₂ tt i v before in
        let m = Moved-trans t t₂ v (Moved-trans t t₁ t₂ m₁ m₂) m₃ in
        let (_, one, _) =
          one_updated test guarded (protocol stale_execution) _ io i v g k u after in
        let none =
          none_held key e.token test v (m.keys_kept keyed) (λ q f. ground (arith, f))
            (HasEnded-Moved key t v h m) in
        omega (arith, one, none)

    pub run_local-refused : (io : TxIo) (g : Guard) → (run_local env json s io e t).0 ≢ ok g
    unfolding run_local
    run_local-refused io g done =
        let (k, u, ran, _) =
          in_transaction-ok io (bind env json s true io.now e >>= commit_witness env json) t g
            done in
        let (b, i, v, bound, _) =
          >>=-ok (bind env json s true io.now e) (commit_witness env json) io 1 t g k u ran in
        bind-refused io b i v bound
