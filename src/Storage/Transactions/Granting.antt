-- ===== src/Storage/Transactions/Granting.antt =====
-- storage/transaction/mysql/store.go: `Reserve` grants the first execution of a request; `Retry` and
-- `Replan` grant the next one over an aborted execution.
use reliable_messaging.Base.{
  ℕ, ◌+◌, ◌/◌, Bool, true, false, not, ◌&&◌, ◌||◌, List, [], ◌∷◌, Option, none, some, leb, ◌==◌,
  if◌then◌else◌, Result, ok, err,
}
use reliable_messaging.Base.Bytes.{Bytes, bytes_eq}
use reliable_messaging.Base.Int.{ℤ, pos_part}
use reliable_messaging.Env.{Env}
use reliable_messaging.Transaction.Plan.{
  FrozenPlan, TransactionError, invalid_plan, binding_mismatch, stale_execution, plan_valid,
  max_fence,
}
use reliable_messaging.Transaction.Evidence.{
  State, prepared, is_aborted, half_not_attempted, final_not_attempted, Reference, Evidence,
}
use reliable_messaging.Transaction.Execution.{
  Request, request_for, request_match, Binding, options_valid, key_digest, Execution, references,
  validate_advance,
}
use reliable_messaging.Transaction.Codec.{Json, encode_plan, encode_reference, decode_reference}
use reliable_messaging.Storage.Mysql.Claim.{lease_end}
use reliable_messaging.Storage.Transactions.Rows.{
  RequestRow, ExecutionRow, WitnessRow, Tables, find_where, update_where, insert_last,
  has_request_key, has_key, has_keys,
}
use reliable_messaging.Storage.Transactions.Monad.{
  TxError, protocol, duplicate, driver_failed, random_failed, TxIo, Tx, pure, ◌>>=◌, ◌>>◌, reject,
  lift, query, exec, finished, in_transaction,
}
use reliable_messaging.Storage.Transactions.Reading.{
  Reservation, found, lift_protocol, lift_codec, key_of, branch_key_of, binding_in, lookup_in,
  lookup,
}

abbrev pub granted : Execution → Reservation
granted e = record { execution = e; acquired = true; state = prepared }

-- INSERT, refused if the primary key is there.
abbrev pub insert_new : {A : Type 0} → (A → Bool) → A → List A → Result TxError (List A)
insert_new test row rows = elim (find_where test rows) [
  | some r ↦ err duplicate
  | none ↦ ok (insert_last row rows)
]

abbrev pub with_requests :
    Tables → Result TxError (List RequestRow) → Result TxError (Unit {0} × Tables)
with_requests t (err e) = err e
with_requests t (ok rows) = ok (tt, record t { requests = rows })

abbrev pub with_executions :
    Tables → Result TxError (List ExecutionRow) → Result TxError (Unit {0} × Tables)
with_executions t (err e) = err e
with_executions t (ok rows) = ok (tt, record t { executions = rows })

abbrev pub with_witnesses :
    Tables → Result TxError (List WitnessRow) → Result TxError (Unit {0} × Tables)
with_witnesses t (err e) = err e
with_witnesses t (ok rows) = ok (tt, record t { witnesses = rows })

unfoldable pub add_request : RequestRow → Tx (Unit {0})
unfolding exec
add_request row =
    exec (λ t. with_requests t (insert_new (has_request_key row.request_key) row t.requests))

unfoldable pub add_execution : ExecutionRow → Tx (Unit {0})
unfolding exec
add_execution row =
    exec (λ t. with_executions t (insert_new (has_key row.execution_key) row t.executions))

unfoldable pub add_witness : WitnessRow → Tx (Unit {0})
unfolding exec
add_witness row =
    exec (λ t.
      with_witnesses t (insert_new (has_keys row.execution_key row.branch_key) row t.witnesses))

abbrev pub activated : Bytes → RequestRow → RequestRow
activated key row = record row { active_execution = key }

unfoldable pub activate : Bytes → Bytes → Tx (Unit {0})
unfolding exec
activate request key = exec (λ t.
    ok (
      tt,
      record t { requests = update_where (has_request_key request) (activated key) t.requests },
    ))

-- A check without statements before the transaction.
abbrev pub if_matched :
    Result TransactionError (Unit {0})
    → Tables
    → Result TxError Reservation × Tables
    → Result TxError Reservation × Tables
if_matched (err e) t rest = (err (protocol e), t)
if_matched (ok done) t rest = rest

module _ (env : Env) (json : Json) where
  abbrev pub request_row : Request → Execution → RequestRow
  request_row r e = record {
    request_key = key_digest env r;
    owner = r.owner;
    scope = r.scope;
    idempotency_key = r.key;
    input_hash = r.input_hash;
    active_execution = key_of env json e;
  }

  abbrev pub execution_row : Request → Execution → Bytes → ExecutionRow
  execution_row r e text = record {
    execution_key = key_of env json e;
    request_key = key_digest env r;
    owner = e.plan.input.owner;
    operation_id = e.plan.input.operation_id;
    writer_epoch = e.writer_epoch;
    fence = e.fence;
    token = e.token;
    plan = text;
    state = prepared;
    lease_until = e.lease_until / 1000;
    guard_version = 0;
    prepare_started = false;
  }

  abbrev pub witness_row : Execution → Reference → Bytes → WitnessRow
  witness_row e r text = record {
    execution_key = key_of env json e;
    branch_key = branch_key_of env json r.branch_id;
    reference = text;
    state = prepared;
    broker_message_id = none;
    broker_transaction_id = none;
    half_outcome = half_not_attempted;
    final_outcome = final_not_attempted;
    half_error_code = [];
    final_error_code = [];
    half_recorded_at = none;
    final_recorded_at = none;
  }

  -- The loop of `insertExecution` over the references.
  unfoldable pub insert_witnesses : Execution → List Reference → Tx (Unit {0})
  insert_witnesses e [] = pure tt
  insert_witnesses e (r ∷ rs) = do
    text ← lift (lift_codec (encode_reference json r))
    add_witness (witness_row e r text)
    insert_witnesses e rs

  unfoldable pub insert_execution : Request → Execution → Tx (Unit {0})
  unfolding insert_witnesses
  insert_execution r e = do
    text ← lift (lift_codec (encode_plan json e.plan))
    add_execution (execution_row r e text)
    insert_witnesses e (references env e)

  abbrev pub drawn : Option Bytes → Result TxError Bytes
  drawn none = err random_failed
  drawn (some bs) = ok bs

  abbrev pub insert_request : Request → Execution → Tx (Unit {0})
  insert_request r e = add_request (request_row r e)

  module _ (s : Binding) where
    -- `newExecution`: the random token, then the database clock.
    abbrev pub execution_at : FrozenPlan → ℕ → ℤ → Bytes → ℕ → Execution
    execution_at p fence lease token now = record {
      plan = p;
      fence = fence;
      writer_epoch = s.writer_epoch;
      token = token;
      lease_until = lease_end now (pos_part lease);
    }

    unfoldable pub new_execution : TxIo → FrozenPlan → ℕ → ℤ → Tx Execution
    new_execution io p fence lease = do
      token ← lift (drawn io.entropy)
      query (λ t. ok (execution_at p fence lease token io.now))

    -- The body of `Reserve` to the INSERT of the request.
    unfoldable pub open_request : TxIo → Request → FrozenPlan → ℤ → Tx Execution
    unfolding binding_in new_execution
    open_request io r p lease = do
      binding_in env json s true
      e ← new_execution io p 1 lease
      insert_request r e
      pure e

    -- The rest: a duplicate request is rolled back and looked up by a call of its own.
    abbrev pub reserved :
        TxIo
        → TxIo
        → Request
        → Tables
        → Result TxError (Execution × ℕ × Tables)
        → Result TxError Reservation × Tables
    reserved io again r t (err duplicate) =
        (if io.rollback_fails then err driver_failed else lookup env json s again r t, t)
    reserved io again r t (err e) = (err e, t)
    reserved io again r t (ok (e, k, u)) =
        finished io.commit t ((insert_execution r e >> pure (granted e)) io k u)

    unfoldable pub reserve :
        TxIo → TxIo → Request → FrozenPlan → ℤ → Tables → Result TxError Reservation × Tables
    unfolding open_request insert_execution
    reserve io again r p lease t =
        if not (options_valid lease) || not (plan_valid p) || not (bytes_eq r.owner s.owner)
        then (err (protocol binding_mismatch), t)
        else if_matched (request_match r p) t (
            if io.fails 0
            then (err driver_failed, t)
            else reserved io again r t (open_request io r p lease io 1 t))

    -- The witnesses of the prior execution, read one by one.
    unfoldable pub read_witnesses : Bytes → State → List Reference → Tx (List (Option Evidence))
    read_witnesses key state [] = pure []
    read_witnesses key state (r ∷ rs) = do
      w ←
          query (λ t.
            found (find_where (has_keys key (branch_key_of env json r.branch_id)) t.witnesses))
      actual ← lift (lift_codec (decode_reference json w.reference))
      rest ← read_witnesses key state rs
      pure
          (some (record { about = actual; execution_state = state; branch_state = w.state }) ∷ rest)

    abbrev pub other_execution : Reservation → Execution → Bool
    other_execution current previous =
        not (is_aborted current.state)
        || not (bytes_eq (key_of env json current.execution) (key_of env json previous))
        || not (bytes_eq current.execution.plan.digest previous.plan.digest)

    -- The transaction of `advance`.
    unfoldable pub advance_in : TxIo → Request → Execution → FrozenPlan → ℤ → Bool → Tx Reservation
    unfolding binding_in lookup_in read_witnesses new_execution insert_execution
    advance_in io r previous p lease replan = do
      binding_in env json s true
      current ← lookup_in env json s r
      reject (other_execution current previous) (protocol stale_execution)
      evidence ← read_witnesses (key_of env json previous) current.state (references env previous)
      lift (lift_protocol (validate_advance env previous p evidence replan))
      e ← new_execution io p (previous.fence + 1) lease
      insert_execution r e
      activate (key_digest env r) (key_of env json e)
      pure (granted e)

    unfoldable pub advance :
        TxIo → Execution → FrozenPlan → ℤ → Bool → Tables → Result TxError Reservation × Tables
    unfolding advance_in
    advance io previous p lease replan t =
        let r = request_for previous.plan in
        if not (plan_valid previous.plan)
          || not (plan_valid p)
          || not (options_valid lease)
          || previous.fence == 0
          || leb max_fence previous.fence
        then (err (protocol invalid_plan), t)
        else if not (bytes_eq r.owner s.owner)
        then (err (protocol binding_mismatch), t)
        else if_matched (request_match r p) t (
            if replan && bytes_eq p.input.operation_id previous.plan.input.operation_id
            then (err (protocol invalid_plan), t)
            else in_transaction io (advance_in io r previous p lease replan) t)

    unfoldable pub retry : TxIo → Execution → ℤ → Tables → Result TxError Reservation × Tables
    retry io previous lease t = advance io previous previous.plan lease false t

    unfoldable pub replan_over :
        TxIo → Execution → FrozenPlan → ℤ → Tables → Result TxError Reservation × Tables
    replan_over io previous candidate lease t = advance io previous candidate lease true t
