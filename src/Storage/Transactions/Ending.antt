-- ===== src/Storage/Transactions/Ending.antt =====
-- storage/transaction/mysql/store.go: `BeginPrepare`, `Abort` and `ReconcileOnce`;
-- storage/transaction/mysql/guard.go: `Bind` and `CommitWitness`.
use reliable_messaging.Base.{
  ℕ, suc, Bool, true, false, not, ◌&&◌, ◌||◌, List, [], ◌∷◌, Option, none, some, ltb, leb, ◌==◌,
  if◌then◌else◌, length, take, Result, ok, err,
}
use reliable_messaging.Base.Bytes.{Bytes, bytes_eq}
use reliable_messaging.Base.Int.{ℤ, pos, ltb_ℤ, pos_part}
use reliable_messaging.Env.{Env}
use reliable_messaging.Transaction.Plan.{
  FrozenPlan, invalid_plan, binding_mismatch, stale_execution, transaction_required,
}
use reliable_messaging.Transaction.Evidence.{State, prepared, committed, aborted, Reference, ref_eq}
use reliable_messaging.Transaction.Execution.{Binding, Execution, execution_valid, references}
use reliable_messaging.Transaction.Codec.{Json, CodecError, decode_plan, decode_reference}
use reliable_messaging.Storage.Transactions.Rows.{
  ExecutionRow, WitnessRow, Tables, find_where, update_where, count_where, has_key, has_keys,
}
use reliable_messaging.Storage.Transactions.Monad.{
  TxError, protocol, driver_failed, TxIo, Tx, pure, ◌>>=◌, ◌>>◌, reject, lift, query, exec,
  finished, in_transaction,
}
use reliable_messaging.Storage.Transactions.Reading.{
  found, lift_codec, key_of, branch_key_of, scan_execution, binding_in,
}

abbrev pub is_prepared : State → Bool
is_prepared prepared = true
is_prepared _ = false

-- UPDATE, with the number of rows that it changes.
unfoldable pub update_executions : (ExecutionRow → Bool) → (ExecutionRow → ExecutionRow) → Tx ℕ
unfolding exec
update_executions test f = exec (λ t.
    ok (count_where test t.executions, record t { executions = update_where test f t.executions }))

unfoldable pub update_witnesses : (WitnessRow → Bool) → (WitnessRow → WitnessRow) → Tx ℕ
unfolding exec
update_witnesses test f = exec (λ t.
    ok (count_where test t.witnesses, record t { witnesses = update_where test f t.witnesses }))

abbrev pub held : Bytes → Bytes → ExecutionRow → Bool
held key token r = has_key key r && bytes_eq r.token token && is_prepared r.state

abbrev pub startable : ℕ → Bytes → Bytes → ExecutionRow → Bool
startable now key token r = held key token r && not r.prepare_started && ltb now r.lease_until

abbrev pub started : ExecutionRow → ExecutionRow
started r = record r { prepare_started = true }

abbrev pub abortable : Bool → ℕ → Bytes → Bytes → ExecutionRow → Bool
abortable expired now key token r = held key token r && (not expired || leb r.lease_until now)

abbrev pub to_aborted : ExecutionRow → ExecutionRow
to_aborted r = record r { state = aborted; guard_version = suc r.guard_version }

abbrev pub bindable : ℕ → Bytes → Bytes → ExecutionRow → Bool
bindable now key token r = held key token r && ltb now r.lease_until

abbrev pub guarded : ExecutionRow → ExecutionRow
guarded r = record r { guard_version = suc r.guard_version }

abbrev pub to_committed : ExecutionRow → ExecutionRow
to_committed r = record r { state = committed }

abbrev pub waits : Bytes → WitnessRow → Bool
waits key w = bytes_eq w.execution_key key && is_prepared w.state

abbrev pub witness_aborted : WitnessRow → WitnessRow
witness_aborted w = record w { state = aborted }

abbrev pub witness_committed : WitnessRow → WitnessRow
witness_committed w = record w { state = committed }

-- The order of the expired executions by their lease.
unfoldable pub insert_by_lease : ExecutionRow → List ExecutionRow → List ExecutionRow
insert_by_lease r [] = r ∷ []
insert_by_lease r (s ∷ ss) =
    let rest = insert_by_lease r ss in
    if leb r.lease_until s.lease_until then r ∷ s ∷ ss else s ∷ rest

unfoldable pub expired_rows : Bytes → ℕ → List ExecutionRow → List ExecutionRow
unfolding insert_by_lease
expired_rows owner now [] = []
expired_rows owner now (r ∷ rs) =
    let rest = expired_rows owner now rs in
    if bytes_eq r.owner owner && is_prepared r.state && leb r.lease_until now
    then insert_by_lease r rest
    else rest

-- The bound execution, and whether its witnesses were committed.
pub record Guard : Type 0 where
  pub execution : Execution
  pub is_committed : Bool

module _ (env : Env) (json : Json) where
  -- The stored plan is the execution's.
  abbrev pub stored_plan_matches : Bytes → FrozenPlan → Tx (Unit {0})
  stored_plan_matches key p = do
    r ← query (λ t. found (find_where (has_key key) t.executions))
    stored ← lift (lift_codec (decode_plan env json r.plan))
    reject (not (bytes_eq stored.digest p.digest)) (protocol stale_execution)

  -- The loop of `ReconcileOnce` over its rows.
  unfoldable pub scan_all : List ExecutionRow → Result TxError (List Execution)
  scan_all [] = ok []
  scan_all (r ∷ rs) = scan_next (scan_execution env json r) (scan_all rs)
    where
      scan_next :
          Result TxError (Execution × State)
          → Result TxError (List Execution)
          → Result TxError (List Execution)
      scan_next (err e) rest = err e
      scan_next (ok (e, s)) (err f) = err f
      scan_next (ok (e, s)) (ok es) = ok (e ∷ es)

  -- The loop of `Bind` over the references.
  abbrev pub witness_matches : Reference → WitnessRow → Result CodecError Reference → Bool
  witness_matches r w (err e) = false
  witness_matches r w (ok actual) = ref_eq actual r && is_prepared w.state

  unfoldable pub check_witnesses : Bytes → List Reference → Tx (Unit {0})
  check_witnesses key [] = pure tt
  check_witnesses key (r ∷ rs) = do
    w ←
        query
          (λ t. found (find_where (has_keys key (branch_key_of env json r.branch_id)) t.witnesses))
    reject (not (witness_matches r w (decode_reference json w.reference)))
        (protocol stale_execution)
    check_witnesses key rs

  -- `CommitWitness`
  unfoldable pub commit_witness : Guard → Tx Guard
  commit_witness g = do
    reject g.is_committed (protocol transaction_required)
    n ← update_witnesses (waits (key_of env json g.execution)) witness_committed
    reject (not (n == length g.execution.plan.input.branches)) (protocol stale_execution)
    m ← update_executions (held (key_of env json g.execution) g.execution.token) to_committed
    reject (not (m == 1)) (protocol stale_execution)
    pure (record g { is_committed = true })

  module _ (s : Binding) where
    -- `BeginPrepare` between `BeginTx` and `Commit`
    unfoldable pub begin_prepare_in : ℕ → Execution → Tx (Unit {0})
    unfolding binding_in
    begin_prepare_in now e = do
      binding_in env json s true
      n ← update_executions (startable now (key_of env json e) e.token) started
      reject (not (n == 1)) (protocol stale_execution)
      stored_plan_matches (key_of env json e) e.plan

    abbrev pub foreign_execution : Execution → Bool
    foreign_execution e =
        not (execution_valid e)
        || not (bytes_eq e.plan.input.owner s.owner)
        || not (bytes_eq e.writer_epoch s.writer_epoch)

    unfoldable pub begin_prepare : TxIo → Execution → Tables → Result TxError (Unit {0}) × Tables
    unfolding begin_prepare_in
    begin_prepare io e t =
        if foreign_execution e
        then (err (protocol binding_mismatch), t)
        else in_transaction io (begin_prepare_in io.now e) t

    -- `abort` to the first UPDATE, with the number of its rows, and the rest.
    unfoldable pub abort_execution : Bool → ℕ → Execution → Tx ℕ
    unfolding binding_in
    abort_execution expired now e = do
      binding_in env json s false
      update_executions (abortable expired now (key_of env json e) e.token) to_aborted

    unfoldable pub abort_witnesses : Execution → Tx Bool
    abort_witnesses e = do
      n ← update_witnesses (waits (key_of env json e)) witness_aborted
      reject (not (n == length e.plan.input.branches)) (protocol stale_execution)
      pure true

    -- No row changed: the transaction is rolled back and there is no error.
    abbrev pub abort_rest :
        TxIo → Execution → Tables → Result TxError (ℕ × ℕ × Tables) → Result TxError Bool × Tables
    abort_rest io e t (err f) = (err f, t)
    abort_rest io e t (ok (n, k, u)) =
        if n == 0 then (ok false, t) else finished io.commit t (abort_witnesses e io k u)

    unfoldable pub abort : Bool → TxIo → Execution → Tables → Result TxError Bool × Tables
    unfolding abort_execution abort_witnesses
    abort expired io e t =
        if not (execution_valid e) || not (bytes_eq e.plan.input.owner s.owner)
        then (err (protocol binding_mismatch), t)
        else if io.fails 0
        then (err driver_failed, t)
        else abort_rest io e t (abort_execution expired io.now e io 1 t)

    abbrev pub after_abort :
        ℕ → Result TxError Bool × Tables → ℕ × Option TxError × Tables → ℕ × Option TxError × Tables
    after_abort n (err f, u) rest = (n, some f, u)
    after_abort n (ok done, u) rest = rest

    abbrev pub counted : ℕ → Result TxError Bool → ℕ
    counted n (ok true) = suc n
    counted n _ = n

    -- The aborts of `ReconcileOnce`, each in a transaction of its own, with the count so far.
    unfoldable pub abort_all :
        (ℕ → TxIo) → ℕ → ℕ → List Execution → Tables → ℕ × Option TxError × Tables
    unfolding abort
    abort_all ios i n [] t = (n, none, t)
    abort_all ios i n (e ∷ es) t =
        let step : Result TxError Bool × Tables = abort true (ios i) e t in
        after_abort n step (abort_all ios (suc i) (counted n step.0) es step.1)

    abbrev pub reconciled :
        (ℕ → TxIo) → Result TxError (List Execution) → Tables → ℕ × Option TxError × Tables
    reconciled ios (err f) t = (0, some f, t)
    reconciled ios (ok es) t = abort_all ios 0 0 es t

    -- `ReconcileOnce`; `failed` and `now` are those of its own statement.
    unfoldable pub reconcile_once : Bool → ℕ → (ℕ → TxIo) → ℤ → Tables → ℕ × Option TxError × Tables
    unfolding abort_all expired_rows scan_all
    reconcile_once failed now ios limit t =
        if ltb_ℤ limit (pos 1) || ltb_ℤ (pos 1000) limit
        then (0, some (protocol invalid_plan), t)
        else if failed
        then (0, some driver_failed, t)
        else reconciled ios
            (scan_all (take (pos_part limit) (expired_rows s.owner now t.executions))) t

    -- `Bind`, in the host's transaction, if there is one.
    unfoldable pub bind : Bool → ℕ → Execution → Tx Guard
    unfolding binding_in check_witnesses
    bind has_tx now e = do
      reject (not has_tx) (protocol transaction_required)
      reject (foreign_execution e) (protocol binding_mismatch)
      binding_in env json s true
      n ← update_executions (bindable now (key_of env json e) e.token) guarded
      reject (not (n == 1)) (protocol stale_execution)
      stored_plan_matches (key_of env json e) e.plan
      check_witnesses (key_of env json e) (references env e)
      pure (record { execution = e; is_committed = false })

    -- A host's transaction that binds an execution first, and commits it last.
    unfoldable pub run_local : TxIo → Execution → Tables → Result TxError Guard × Tables
    unfolding bind commit_witness
    run_local io e t = in_transaction io (bind true io.now e >>= commit_witness) t
