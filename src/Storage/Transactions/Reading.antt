-- ===== src/Storage/Transactions/Reading.antt =====
-- storage/transaction/mysql/store.go: the binding of a store, its lookup and its evidence.
use reliable_messaging.Base.{
  ℕ, ◌*◌, Bool, false, not, ◌&&◌, ◌||◌, Option, none, some, ltb, ◌==◌, if◌then◌else◌, length,
  Result, ok, err,
}
use reliable_messaging.Base.Bytes.{Bytes, bytes_eq}
use reliable_messaging.Env.{Env}
use reliable_messaging.Message.{no_digest}
use reliable_messaging.Transaction.Plan.{
  FrozenPlan, TransactionError, invalid_plan, request_identity, input_conflict, binding_mismatch,
  schema_mismatch, not_found,
}
use reliable_messaging.Transaction.Evidence.{State, Reference, ref_valid, Evidence}
use reliable_messaging.Transaction.Execution.{
  Request, request_valid, request_match, Binding, binding_valid, key_digest, execution_key,
  Execution, execution_valid,
}
use reliable_messaging.Transaction.Codec.{Json, CodecError, decode_plan, decode_reference}
use reliable_messaging.Storage.Transactions.Rows.{
  BindingRow, RequestRow, ExecutionRow, WitnessRow, Tables, find_where, has_request_key, has_key,
  has_keys,
}
use reliable_messaging.Storage.Transactions.Monad.{
  TxError, protocol, codec, no_rows, driver_failed, TxIo, Tx, pure, ◌>>=◌, ◌>>◌, lift, query,
  value_of,
}

-- transaction/store.go
pub record Reservation : Type 0 where
  pub execution : Execution
  pub acquired : Bool
  pub state : State

abbrev pub schema_version_one : ℕ
schema_version_one = 1

-- `New`: the limits of the binding's columns.
unfoldable pub new : Bool → Binding → Result TxError Binding
new has_db b =
    if not has_db
      || not (binding_valid b)
      || ltb 128 (length b.owner)
      || ltb 128 (length b.store_id)
      || ltb 128 (length b.writer_epoch)
    then err (protocol binding_mismatch)
    else ok b

abbrev pub found : {A : Type 0} → Option A → Result TxError A
found none = err no_rows
found (some a) = ok a

abbrev pub lift_protocol : {A : Type 0} → Result TransactionError A → Result TxError A
lift_protocol (ok a) = ok a
lift_protocol (err e) = err (protocol e)

abbrev pub lift_codec : {A : Type 0} → Result CodecError A → Result TxError A
lift_codec (ok a) = ok a
lift_codec (err e) = err (codec e)

abbrev pub evidence_of :
    ExecutionRow → WitnessRow → Result CodecError Reference → Result TxError (Option Evidence)
evidence_of e w (err f) = err (codec f)
evidence_of e w (ok r) =
    ok (some (record { about = r; execution_state = e.state; branch_state = w.state }))

-- The three rows of a join, the last by the owner of the first.
module _ (json : Json) where
  abbrev pub bound_evidence :
      ExecutionRow → WitnessRow → Option BindingRow → Result TxError (Option Evidence)
  bound_evidence e w none = ok none
  bound_evidence e w (some b) = evidence_of e w (decode_reference json w.reference)

  abbrev pub joined :
      Option ExecutionRow
      → Option WitnessRow
      → (Bytes → Option BindingRow)
      → Result TxError (Option Evidence)
  joined none w bound = ok none
  joined (some e) none bound = ok none
  joined (some e) (some w) bound = bound_evidence e w (bound e.owner)

module _ (env : Env) (json : Json) where
  abbrev pub key_of : Execution → Bytes
  key_of e = execution_key env e.plan.input.owner e.plan.input.operation_id e.writer_epoch e.fence

  -- `BranchKey`
  abbrev pub branch_key_of : Bytes → Bytes
  branch_key_of id = env.sha256 id

  abbrev pub scanned :
      ExecutionRow → Result CodecError FrozenPlan → Result TxError (Execution × State)
  scanned r (err e) = err (codec e)
  scanned r (ok p) =
      let e : Execution = record {
        plan = p;
        fence = r.fence;
        writer_epoch = r.writer_epoch;
        token = r.token;
        lease_until = r.lease_until * 1000;
      } in
      if not (length r.token == 32) || not (execution_valid e)
      then err (protocol invalid_plan)
      else ok (e, r.state)

  -- `scanExecution`; the database's own times always parse.
  unfoldable pub scan_execution : ExecutionRow → Result TxError (Execution × State)
  scan_execution r = scanned r (decode_plan env json r.plan)

  module _ (s : Binding) where
    abbrev pub check_binding : Bool → BindingRow → Result TxError (Unit {0})
    check_binding writer b =
        if not (bytes_eq b.store_id s.store_id)
          || (writer && not (bytes_eq b.writer_epoch s.writer_epoch))
        then err (protocol binding_mismatch)
        else if not (b.schema_version == schema_version_one)
        then err (protocol schema_mismatch)
        else ok tt

    -- `bindingIn`
    unfoldable pub binding_in : Bool → Tx (Unit {0})
    binding_in writer = do
      b ← query (λ t. found (find_where (λ r. bytes_eq r.owner s.owner) t.bindings))
      lift (check_binding writer b)

    abbrev pub check_request : Request → RequestRow → Result TxError (Unit {0})
    check_request r row =
        if not (bytes_eq row.owner r.owner)
          || not (bytes_eq row.scope r.scope)
          || not (bytes_eq row.idempotency_key r.key)
        then err (protocol request_identity)
        else if not (bytes_eq row.input_hash r.input_hash)
        then err (protocol input_conflict)
        else ok tt

    -- The reservation that a lookup returns: without the winner's token.
    abbrev pub shown : Execution × State → Reservation
    shown (e, state) = record {
      execution = record e { token = no_digest };
      acquired = false;
      state = state;
    }

    -- `lookupIn`; the lock of the request's row lasts to the end of the transaction.
    unfoldable pub lookup_in : Request → Tx Reservation
    unfolding scan_execution
    lookup_in r = do
      row ← query (λ t. found (find_where (has_request_key (key_digest env r)) t.requests))
      lift (check_request r row)
      stored ← query (λ t. found (find_where (has_key row.active_execution) t.executions))
      scan ← lift (scan_execution stored)
      lift (lift_protocol (request_match r scan.0.plan))
      pure (shown scan)

    abbrev pub or_not_found : Result TxError Reservation → Result TxError Reservation
    or_not_found (err no_rows) = err (protocol not_found)
    or_not_found r = r

    -- The rest of `Lookup` behind `BeginTx`: only an error of `lookupIn` becomes `ErrNotFound`.
    abbrev pub looked_up :
        TxIo → Request → Result TxError (Unit {0} × ℕ × Tables) → Result TxError Reservation
    looked_up io r (err e) = err e
    looked_up io r (ok (_, k, u)) = or_not_found (value_of (lookup_in r io k u))

    unfoldable pub lookup : TxIo → Request → Tables → Result TxError Reservation
    unfolding binding_in lookup_in
    lookup io r t =
        if not (request_valid r) || not (bytes_eq r.owner s.owner)
        then err (protocol binding_mismatch)
        else if io.fails 0
        then err driver_failed
        else looked_up io r (binding_in false io 1 t)

    abbrev pub bound_here : Bytes → BindingRow → Bool
    bound_here owner b =
        bytes_eq b.owner owner
        && bytes_eq b.store_id s.store_id
        && b.schema_version == schema_version_one

    -- The join of the execution, its branch's witness and the binding of its owner.
    unfoldable pub join_evidence : Bytes → Bytes → Tables → Result TxError (Option Evidence)
    join_evidence key branch t =
        joined json (find_where (has_key key) t.executions)
          (find_where (has_keys key branch) t.witnesses)
          (λ owner. find_where (bound_here owner) t.bindings)

    -- `Evidence`: one statement; `failed` says that it failed.
    unfoldable pub evidence : Bool → Reference → Tables → Result TxError (Option Evidence)
    unfolding join_evidence
    evidence failed r t =
        if not (ref_valid r) || not (bytes_eq r.owner s.owner)
        then err (protocol binding_mismatch)
        else if failed
        then err driver_failed
        else join_evidence (execution_key env r.owner r.operation_id r.writer_epoch r.fence)
            (branch_key_of r.branch_id) t
