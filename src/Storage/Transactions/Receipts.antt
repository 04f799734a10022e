-- ===== src/Storage/Transactions/Receipts.antt =====
-- storage/transaction/mysql/receipt.go and storage/transaction/mysql/recovery_receipt.go: the audit of what the broker
-- answered. It never changes the state of an execution or a witness.
use reliable_messaging.Base.{
  ℕ, Bool, true, false, not, ◌&&◌, ◌||◌, [], Option, none, some, ltb, ◌==◌, if◌then◌else◌, length,
  Result, ok, err,
}
use reliable_messaging.Base.Bytes.{Bytes, bytes_eq}
use reliable_messaging.Env.{Env}
use reliable_messaging.Transaction.Plan.{
  TransactionError, invalid_plan, binding_mismatch, stale_execution,
}
use reliable_messaging.Transaction.Evidence.{
  State, prepared, committed, aborted, other, is_committed, is_aborted, HalfOutcome,
  half_not_attempted, half_prepared, half_rejected, half_unknown, half_other, FinalOutcome,
  final_not_attempted, commit_confirmed, rollback_confirmed, final_unknown, final_other, Reference,
  ref_valid, ref_eq,
}
use reliable_messaging.Transaction.Execution.{Binding, Execution, execution_key, match_execution}
use reliable_messaging.Transaction.Receipt.{
  HalfReceipt, receipt_valid, recovery_final_state, valid_final,
}
use reliable_messaging.Transaction.Codec.{Json, decode_reference}
use reliable_messaging.Storage.Transactions.Rows.{
  ExecutionRow, WitnessRow, Tables, find_where, has_key, has_keys,
}
use reliable_messaging.Storage.Transactions.Monad.{
  TxError, protocol, TxIo, Tx, pure, ◌>>=◌, ◌>>◌, reject, lift, query, in_transaction, in_reading,
}
use reliable_messaging.Storage.Transactions.Reading.{
  found, lift_codec, key_of, branch_key_of, binding_in,
}
use reliable_messaging.Storage.Transactions.Ending.{is_prepared, update_witnesses}

-- `==` on the texts of states and outcomes
abbrev pub state_eq : State → State → Bool
state_eq prepared prepared = true
state_eq committed committed = true
state_eq aborted aborted = true
state_eq (other a) (other b) = bytes_eq a b
state_eq _ _ = false

abbrev pub half_eq : HalfOutcome → HalfOutcome → Bool
half_eq half_not_attempted half_not_attempted = true
half_eq half_prepared half_prepared = true
half_eq half_rejected half_rejected = true
half_eq half_unknown half_unknown = true
half_eq (half_other a) (half_other b) = bytes_eq a b
half_eq _ _ = false

abbrev pub half_open : HalfOutcome → Bool
half_open half_not_attempted = true
half_open half_unknown = true
half_open _ = false

abbrev pub final_eq : FinalOutcome → FinalOutcome → Bool
final_eq final_not_attempted final_not_attempted = true
final_eq commit_confirmed commit_confirmed = true
final_eq rollback_confirmed rollback_confirmed = true
final_eq final_unknown final_unknown = true
final_eq (final_other a) (final_other b) = bytes_eq a b
final_eq _ _ = false

abbrev pub final_open : FinalOutcome → Bool
final_open final_not_attempted = true
final_open final_unknown = true
final_open _ = false

-- A recorded identifier that is not the receipt's; NULL and '' are none.
abbrev pub contradicts : Option Bytes → Bytes → Bool
contradicts none id = false
contradicts (some old) id = ltb 0 (length old) && not (bytes_eq old id)

-- The outcome claims another state than the execution's.
abbrev pub against : FinalOutcome → State → Bool
against commit_confirmed state = not (is_committed state)
against rollback_confirmed state = not (is_aborted state)
against _ state = false

abbrev pub with_half : ℕ → HalfReceipt → WitnessRow → WitnessRow
with_half now h w = record w {
  half_outcome = h.outcome;
  broker_message_id = some h.broker_message_id;
  broker_transaction_id = some h.broker_transaction_id;
  half_error_code = h.error_code;
  half_recorded_at = some now;
}

abbrev pub with_final : ℕ → FinalOutcome → Bytes → WitnessRow → WitnessRow
with_final now f code w = record w {
  final_outcome = f;
  final_error_code = code;
  final_recorded_at = some now;
}

-- The row of a witness by its keys, and its audit by one UPDATE.
abbrev pub witness_at : Bytes → Bytes → Tx WitnessRow
witness_at key branch = query (λ t. found (find_where (has_keys key branch) t.witnesses))

abbrev pub audit : Bytes → Bytes → (WitnessRow → WitnessRow) → Tx (Unit {0})
audit key branch f = do n ← update_witnesses (has_keys key branch) f; pure tt

abbrev pub other_owner : Reference → ExecutionRow → Bool
other_owner r x =
    not (bytes_eq x.owner r.owner)
    || not (bytes_eq x.operation_id r.operation_id)
    || not (bytes_eq x.writer_epoch r.writer_epoch)
    || not (x.fence == r.fence)

abbrev pub unless : Bool → Tx (Unit {0}) → Tx (Unit {0})
unless true m = pure tt
unless false m = m

module _ (env : Env) (json : Json) where
  module _ (s : Binding) where
    -- `Validate`: the binding and a statement over all tables that selects no row.
    unfoldable pub validate : TxIo → Tables → Result TxError (Unit {0})
    unfolding binding_in
    validate io t = in_reading io (binding_in env json s true >> query (λ u. ok tt)) t

    -- The body of `receiptTx` before the callback, which receives the state.
    unfoldable pub locked_state : Execution → Reference → Tx State
    unfolding binding_in
    locked_state e r = do
      binding_in env json s false
      x ← query (λ t. found (find_where (has_key (key_of env json e)) t.executions))
      reject (not (bytes_eq x.token e.token)) (protocol stale_execution)
      w ← witness_at (key_of env json e) (branch_key_of env json r.branch_id)
      actual ← lift (lift_codec (decode_reference json w.reference))
      reject (not (ref_eq actual r) || not (state_eq w.state x.state)) (protocol stale_execution)
      pure x.state

    -- `receiptTx`
    abbrev pub receipt_tx :
        TxIo
        → Execution
        → Reference
        → (State → Tx (Unit {0}))
        → Tables
        → Result TxError (Unit {0}) × Tables
    receipt_tx io e r fn t =
        if not (match_execution env e r) || not (bytes_eq r.owner s.owner)
        then (err (protocol binding_mismatch), t)
        else in_transaction io (locked_state e r >>= fn) t

    -- The callback of `RecordHalf`
    unfoldable pub half_body : ℕ → Execution → Reference → HalfReceipt → State → Tx (Unit {0})
    half_body now e r h state = do
      reject (not (is_prepared state)) (protocol stale_execution)
      w ← witness_at (key_of env json e) (branch_key_of env json r.branch_id)
      reject
          (contradicts w.broker_message_id h.broker_message_id
            || contradicts w.broker_transaction_id h.broker_transaction_id
            || (not (half_open w.half_outcome) && not (half_eq w.half_outcome h.outcome)))
          (protocol stale_execution)
      audit (key_of env json e) (branch_key_of env json r.branch_id) (with_half now h)

    unfoldable pub record_half :
        TxIo → Execution → Reference → HalfReceipt → Tables → Result TxError (Unit {0}) × Tables
    unfolding locked_state half_body
    record_half io e r h t =
        if not (receipt_valid h)
        then (err (protocol invalid_plan), t)
        else receipt_tx io e r (half_body io.now e r h) t

    -- The callback of `RecordFinal`
    unfoldable pub final_body :
        ℕ → Execution → Reference → FinalOutcome → Bytes → State → Tx (Unit {0})
    final_body now e r f code state = do
      reject (not (is_committed state) && not (is_aborted state)) (protocol stale_execution)
      reject (against f state) (protocol stale_execution)
      w ← witness_at (key_of env json e) (branch_key_of env json r.branch_id)
      reject (not (final_open w.final_outcome) && not (final_eq w.final_outcome f))
          (protocol stale_execution)
      audit (key_of env json e) (branch_key_of env json r.branch_id) (with_final now f code)

    unfoldable pub record_final :
        TxIo
        → Execution
        → Reference
        → FinalOutcome
        → Bytes
        → Tables
        → Result TxError (Unit {0}) × Tables
    unfolding locked_state final_body
    record_final io e r f code t =
        if not (valid_final f code)
        then (err (protocol invalid_plan), t)
        else receipt_tx io e r (final_body io.now e r f code) t

    abbrev pub reference_key : Reference → Bytes
    reference_key r = execution_key env r.owner r.operation_id r.writer_epoch r.fence

    -- `RecordRecoveryFinal` between `BeginTx` and `Commit`
    unfoldable pub recovery_body : ℕ → Reference → FinalOutcome → State → Tx (Unit {0})
    unfolding binding_in
    recovery_body now r outcome state = do
      binding_in env json s false
      x ← query (λ t. found (find_where (has_key (reference_key r)) t.executions))
      reject (other_owner r x || not (state_eq x.state state)) (protocol stale_execution)
      w ← witness_at (reference_key r) (branch_key_of env json r.branch_id)
      actual ← lift (lift_codec (decode_reference json w.reference))
      reject
          (not (ref_eq actual r)
            || not (state_eq w.state state)
            || (not (final_open w.final_outcome) && not (final_eq w.final_outcome outcome)))
          (protocol stale_execution)
      unless (final_eq w.final_outcome outcome)
          (audit (reference_key r) (branch_key_of env json r.branch_id) (with_final now outcome []))

    abbrev pub recover :
        TxIo
        → Reference
        → FinalOutcome
        → Tables
        → Result TransactionError State
        → Result TxError (Unit {0}) × Tables
    recover io r outcome t (err e) = (err (protocol e), t)
    recover io r outcome t (ok state) =
        if not (ref_valid r) || not (bytes_eq r.owner s.owner)
        then (err (protocol binding_mismatch), t)
        else in_transaction io (recovery_body io.now r outcome state) t

    unfoldable pub record_recovery_final :
        TxIo → Reference → FinalOutcome → Tables → Result TxError (Unit {0}) × Tables
    unfolding recovery_body
    record_recovery_final io r outcome t = recover io r outcome t (recovery_final_state outcome)
