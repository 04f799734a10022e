-- ===== src/Storage/Transactions/Steps.antt =====
-- storage/transaction/mysql/: the calls of any number of stores over the same tables, one after the
-- other, and the host's transactions that bind an execution and commit it.
use reliable_messaging.Base.{ℕ, Bool, true, false}
use reliable_messaging.Base.Bytes.{Bytes}
use reliable_messaging.Base.Int.{ℤ}
use reliable_messaging.Env.{Env}
use reliable_messaging.Transaction.Plan.{FrozenPlan}
use reliable_messaging.Transaction.Evidence.{Reference, FinalOutcome}
use reliable_messaging.Transaction.Execution.{Request, Binding, Execution}
use reliable_messaging.Transaction.Receipt.{HalfReceipt}
use reliable_messaging.Transaction.Codec.{Json}
use reliable_messaging.Storage.Transactions.Rows.{Tables}
use reliable_messaging.Storage.Transactions.Monad.{TxIo}
use reliable_messaging.Storage.Transactions.Granting.{reserve, retry, replan_over}
use reliable_messaging.Storage.Transactions.Ending.{begin_prepare, abort, reconcile_once, run_local}
use reliable_messaging.Storage.Transactions.Receipts.{
  record_half, record_final, record_recovery_final,
}
use reliable_messaging.Storage.Transactions.Evolution.{
  IsKeyed, Kept, Followed, Moved, Moved-refl, Moved-trans,
}
use reliable_messaging.Storage.Transactions.Calls.{
  Ends-abort, Ends-advance, Ends-begin_prepare, Ends-record_final, Ends-record_half,
  Ends-record_recovery_final, Ends-reserve, Ends-run_local, reconcile_once-Moved,
}

-- One call of a store with the binding `s`, whatever it meets outside, or one host transaction.
pub data Step (env : Env) (json : Json) (t : Tables) : Tables → Type 0 where
  reserves :
      (s : Binding) (io again : TxIo) (r : Request) (p : FrozenPlan) (lease : ℤ)
      → Step env json t (reserve env json s io again r p lease t).1
  retries :
      (s : Binding) (io : TxIo) (previous : Execution) (lease : ℤ)
      → Step env json t (retry env json s io previous lease t).1
  replans :
      (s : Binding) (io : TxIo) (previous : Execution) (p : FrozenPlan) (lease : ℤ)
      → Step env json t (replan_over env json s io previous p lease t).1
  prepares :
      (s : Binding) (io : TxIo) (e : Execution)
      → Step env json t (begin_prepare env json s io e t).1
  runs : (s : Binding) (io : TxIo) (e : Execution) → Step env json t (run_local env json s io e t).1
  aborts :
      (s : Binding) (io : TxIo) (e : Execution) → Step env json t (abort env json s false io e t).1
  reconciles :
      (s : Binding) (failed : Bool) (now : ℕ) (ios : ℕ → TxIo) (limit : ℤ)
      → Step env json t (reconcile_once env json s failed now ios limit t).2
  records_half :
      (s : Binding) (io : TxIo) (e : Execution) (r : Reference) (h : HalfReceipt)
      → Step env json t (record_half env json s io e r h t).1
  records_final :
      (s : Binding) (io : TxIo) (e : Execution) (r : Reference) (f : FinalOutcome) (code : Bytes)
      → Step env json t (record_final env json s io e r f code t).1
  records_recovery :
      (s : Binding) (io : TxIo) (r : Reference) (f : FinalOutcome)
      → Step env json t (record_recovery_final env json s io r f t).1

pub data Steps (env : Env) (json : Json) (t : Tables) : Tables → Type 0 where
  stay : Steps env json t t
  step : (u v : Tables) → Steps env json t u → Step env json u v → Steps env json t v

pub Step-Moved : (env : Env) (json : Json) (t u : Tables) → Step env json t u → Moved t u
unfolding retry replan_over
Step-Moved env json t _ (reserves s io again r p lease) =
    (Ends-reserve env json s io again r p lease t).moved
Step-Moved env json t _ (retries s io previous lease) =
    (Ends-advance env json s io previous previous.plan lease false t).moved
Step-Moved env json t _ (replans s io previous p lease) =
    (Ends-advance env json s io previous p lease true t).moved
Step-Moved env json t _ (prepares s io e) = (Ends-begin_prepare env json s io e t).moved
Step-Moved env json t _ (runs s io e) = (Ends-run_local env json s io e t).moved
Step-Moved env json t _ (aborts s io e) = (Ends-abort env json s false io e t).moved
Step-Moved env json t _ (reconciles s failed now ios limit) =
    reconcile_once-Moved env json s failed now ios limit t
Step-Moved env json t _ (records_half s io e r h) = (Ends-record_half env json s io e r h t).moved
Step-Moved env json t _ (records_final s io e r f code) =
    (Ends-record_final env json s io e r f code t).moved
Step-Moved env json t _ (records_recovery s io r f) =
    (Ends-record_recovery_final env json s io r f t).moved

pub Steps-Moved : (env : Env) (json : Json) (t u : Tables) → Steps env json t u → Moved t u
Steps-Moved env json t _ stay = Moved-refl t
Steps-Moved env json t _ (step u v before last) =
    Moved-trans t u v (Steps-Moved env json t u before) (Step-Moved env json u v last)

-- Under any calls of any stores, every execution stays under its key with its request, owner,
-- operation, epoch, fence, token, plan and lease, and every witness under its keys with its
-- reference. A started execution stays started, guard versions never fall, and a state other than
-- prepared never changes.
pub Steps-Kept :
    (env : Env) (json : Json) (t u : Tables)
    → Steps env json t u
    → Kept t.executions u.executions × Followed t.witnesses u.witnesses
Steps-Kept env json t u steps =
    let m = Steps-Moved env json t u steps in (m.executions_kept, m.witnesses_kept)

-- If the execution keys are unique, they stay so under any calls.
pub Steps-IsKeyed :
    (env : Env) (json : Json) (t u : Tables)
    → Steps env json t u
    → IsKeyed t.executions
    → IsKeyed u.executions
Steps-IsKeyed env json t u steps = (Steps-Moved env json t u steps).keys_kept
