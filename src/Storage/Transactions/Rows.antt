-- ===== src/Storage/Transactions/Rows.antt =====
-- storage/transaction/mysql/schema.sql: the four tables, and the statements that read and write them.
-- Times are in microseconds, by the database clock.
use reliable_messaging.Base.{ℕ, suc, Bool, ◌&&◌, List, [], ◌∷◌, Option, none, some, if◌then◌else◌}
use reliable_messaging.Base.Bytes.{Bytes, bytes_eq}
use reliable_messaging.Transaction.Evidence.{State, HalfOutcome, FinalOutcome}

pub record BindingRow : Type 0 where
  pub owner : Bytes
  pub store_id : Bytes
  pub writer_epoch : Bytes
  pub schema_version : ℕ

pub record RequestRow : Type 0 where
  pub request_key : Bytes
  pub owner : Bytes
  pub scope : Bytes
  pub idempotency_key : Bytes
  pub input_hash : Bytes
  pub active_execution : Bytes

pub record ExecutionRow : Type 0 where
  pub execution_key : Bytes
  pub request_key : Bytes
  pub owner : Bytes
  pub operation_id : Bytes
  pub writer_epoch : Bytes
  pub fence : ℕ
  pub token : Bytes
  pub plan : Bytes
  pub state : State
  pub lease_until : ℕ
  pub guard_version : ℕ
  pub prepare_started : Bool

pub record WitnessRow : Type 0 where
  pub execution_key : Bytes
  pub branch_key : Bytes
  pub reference : Bytes
  pub state : State
  pub broker_message_id : Option Bytes
  pub broker_transaction_id : Option Bytes
  pub half_outcome : HalfOutcome
  pub final_outcome : FinalOutcome
  pub half_error_code : Bytes
  pub final_error_code : Bytes
  pub half_recorded_at : Option ℕ
  pub final_recorded_at : Option ℕ

pub record Tables : Type 0 where
  pub bindings : List BindingRow
  pub requests : List RequestRow
  pub executions : List ExecutionRow
  pub witnesses : List WitnessRow

-- SELECT, UPDATE with the number of its rows, and INSERT behind the last row.
module _ {ℓ} {A : Type ℓ} where
  unfoldable pub find_where : (A → Bool) → List A → Option A
  find_where test [] = none
  find_where test (r ∷ rs) = if test r then some r else find_where test rs

  unfoldable pub update_where : (A → Bool) → (A → A) → List A → List A
  update_where test f [] = []
  update_where test f (r ∷ rs) = (if test r then f r else r) ∷ update_where test f rs

  unfoldable pub count_where : (A → Bool) → List A → ℕ
  count_where test [] = 0
  count_where test (r ∷ rs) = let rest = count_where test rs in if test r then suc rest else rest

  unfoldable pub insert_last : A → List A → List A
  insert_last q [] = q ∷ []
  insert_last q (r ∷ rs) = r ∷ insert_last q rs

abbrev pub has_request_key : Bytes → RequestRow → Bool
has_request_key key r = bytes_eq r.request_key key

abbrev pub has_key : Bytes → ExecutionRow → Bool
has_key key r = bytes_eq r.execution_key key

abbrev pub has_keys : Bytes → Bytes → WitnessRow → Bool
has_keys key branch r = bytes_eq r.execution_key key && bytes_eq r.branch_key branch
