-- ===== src/Storage/Transactions/Calls.antt =====
-- storage/transaction/mysql/: every call of a store changes the tables in the allowed ways only.
use reliable_messaging.Base.{
  ℕ, suc, Bool, true, false, ◌||◌, not, List, [], ◌∷◌, Option, some, ◌≡◌, refl, ◌==◌, if◌then◌else◌,
  Result, ok, err,
}
use reliable_messaging.Base.Bytes.{Bytes, bytes_eq}
use reliable_messaging.Base.Int.{ℤ, pos, ltb_ℤ}
use reliable_messaging.Env.{Env}
use reliable_messaging.Transaction.Plan.{
  FrozenPlan, TransactionError, invalid_plan, binding_mismatch, plan_valid,
}
use reliable_messaging.Transaction.Evidence.{State, Reference, FinalOutcome}
use reliable_messaging.Transaction.Execution.{
  Request, request_match, Binding, options_valid, Execution, execution_valid,
}
use reliable_messaging.Transaction.Receipt.{HalfReceipt, recovery_final_state}
use reliable_messaging.Transaction.Codec.{Json}
use reliable_messaging.Storage.Mysql.Rows.{Reply, is_applied}
use reliable_messaging.Storage.Transactions.Rows.{Tables}
use reliable_messaging.Storage.Transactions.Monad.{
  TxError, protocol, driver_failed, duplicate, TxIo, Tx, pure, ◌>>◌, finished, in_transaction,
}
use reliable_messaging.Storage.Transactions.Reading.{Reservation}
use reliable_messaging.Storage.Transactions.Granting.{
  granted, if_matched, insert_execution, open_request, reserved, reserve, advance,
}
use reliable_messaging.Storage.Transactions.Ending.{
  begin_prepare, abort_execution, abort_witnesses, abort_rest, abort, abort_all, after_abort,
  counted, reconciled, reconcile_once, run_local,
}
use reliable_messaging.Storage.Transactions.Receipts.{
  record_half, record_final, record_recovery_final, recover,
}
use reliable_messaging.Storage.Transactions.Evolution.{Moved, Moved-refl, Moved-trans}
use reliable_messaging.Storage.Transactions.Moves.{Moves, Moves-bind, Moves-pure}
use reliable_messaging.Storage.Transactions.Bodies

-- What a call leaves: the tables, changed in the allowed ways only.
pub record Ends {A : Type 0} (t : Tables) (x : A × Tables) : Type 0 where
  pub moved : Moved t x.1

if_tables : (b : Bool) (t u : Tables) → Moved t u → Moved t (if b then u else t)
if_tables true t u h = h
if_tables false t u h = Moved-refl t

module _ {A : Type 0} where
  pub Ends-same : (a : A) (t : Tables) → Ends t (a, t)
  Ends-same a t = record { moved = Moved-refl t }

  pub Ends-if :
      (b : Bool) (t : Tables) (x y : A × Tables) → Ends t x → Ends t y → Ends t (if b then x else y)
  Ends-if true t x y p q = p
  Ends-if false t x y p q = q

  pub Ends-finished :
      (reply : Reply) (t : Tables) (r : Result TxError (A × ℕ × Tables))
      → ((a : A) (k : ℕ) (u : Tables) → r ≡ ok (a, k, u) → Moved t u)
      → Ends t (finished reply t r)
  Ends-finished reply t (err e) h = record { moved = Moved-refl t }
  Ends-finished reply t (ok (a, k, u)) h = record {
    moved = if_tables (is_applied reply) t u (h a k u refl);
  }

module _ {A : Type 0} where
  pub Ends-in_transaction :
      (io : TxIo) (body : Tx A) (t : Tables) → Moves body → Ends t (in_transaction io body t)
  unfolding in_transaction
  Ends-in_transaction io body t h =
      Ends-if (io.fails 0) t _ _ (Ends-same _ t)
        (Ends-finished io.commit t (body io 1 t) (h.at io 1 t))

Ends-if_matched :
    (m : Result TransactionError (Unit {0})) (t : Tables)
    (rest : Result TxError Reservation × Tables)
    → Ends t rest
    → Ends t (if_matched m t rest)
Ends-if_matched (err e) t rest h = Ends-same _ t
Ends-if_matched (ok done) t rest h = h

ruleset ends_rules = (Ends-same, Ends-if, Ends-in_transaction, Ends-if_matched)

module _ (env : Env) (json : Json) (s : Binding) where
  pub Ends-reserved :
      (io again : TxIo) (r : Request) (t : Tables) (o : Result TxError (Execution × ℕ × Tables))
      → ((e : Execution) (k : ℕ) (u : Tables) → o ≡ ok (e, k, u) → Moved t u)
      → Ends t (reserved env json s io again r t o)
  Ends-reserved io again r t (ok (e, k, u)) h =
      Ends-finished io.commit t ((insert_execution env json r e >> pure (granted e)) io k u)
        (λ a j v q. Moved-trans t u v (h e k u refl) (
          (Moves-bind _ _ (Bodies.Moves-insert_execution env json r e) (λ done. Moves-pure _)).at io
            k u a j v q))
  Ends-reserved io again r t (err duplicate) h = Ends-same _ t
  Ends-reserved io again r t (err (protocol e)) h = Ends-same _ t
  Ends-reserved io again r t (err _) h = Ends-same _ t

  pub Ends-reserve :
      (io again : TxIo) (r : Request) (p : FrozenPlan) (lease : ℤ) (t : Tables)
      → Ends t (reserve env json s io again r p lease t)
  unfolding reserve
  Ends-reserve io again r p lease t =
      let granted_one =
        Ends-reserved io again r t (open_request env json s io r p lease io 1 t)
          ((Bodies.Moves-open_request env json s io r p lease).at io 1 t) in
      Ends-if (not (options_valid lease) || not (plan_valid p) || not (bytes_eq r.owner s.owner)) t
        _ _ (Ends-same (err (protocol binding_mismatch)) t)
        (Ends-if_matched (request_match r p) t _
          (Ends-if (io.fails 0) t _ _ (Ends-same (err driver_failed) t) granted_one))

  pub Ends-advance :
      (io : TxIo) (previous : Execution) (p : FrozenPlan) (lease : ℤ) (replan : Bool) (t : Tables)
      → Ends t (advance env json s io previous p lease replan t)
  unfolding advance
  Ends-advance io previous p lease replan t = search (ends_rules, Bodies.Moves-advance_in) depth 8

  pub Ends-begin_prepare :
      (io : TxIo) (e : Execution) (t : Tables) → Ends t (begin_prepare env json s io e t)
  unfolding begin_prepare
  Ends-begin_prepare io e t = search (ends_rules, Bodies.Moves-begin_prepare_in) depth 8

  pub Ends-run_local :
      (io : TxIo) (e : Execution) (t : Tables) → Ends t (run_local env json s io e t)
  unfolding run_local
  Ends-run_local io e t =
      search (ends_rules, Moves-bind, Bodies.Moves-guard_bind, Bodies.Moves-commit_witness) depth 8

  pub Ends-abort_rest :
      (io : TxIo) (e : Execution) (t : Tables) (o : Result TxError (ℕ × ℕ × Tables))
      → ((n k : ℕ) (u : Tables) → o ≡ ok (n, k, u) → Moved t u)
      → Ends t (abort_rest env json s io e t o)
  Ends-abort_rest io e t (err f) h = Ends-same _ t
  Ends-abort_rest io e t (ok (n, k, u)) h = Ends-if (n == 0) t _ _ (Ends-same _ t) (
      Ends-finished io.commit t (abort_witnesses env json s e io k u) (λ a j v q.
        Moved-trans t u v (h n k u refl)
          ((Bodies.Moves-abort_witnesses env json s e).at io k u a j v q)))

  pub Ends-abort :
      (expired : Bool) (io : TxIo) (e : Execution) (t : Tables)
      → Ends t (abort env json s expired io e t)
  unfolding abort
  Ends-abort expired io e t =
      let rest =
        Ends-abort_rest io e t (abort_execution env json s expired io.now e io 1 t)
          ((Bodies.Moves-abort_execution env json s expired io.now e).at io 1 t) in
      Ends-if (not (execution_valid e) || not (bytes_eq e.plan.input.owner s.owner)) t _ _
        (Ends-same (err (protocol binding_mismatch)) t)
        (Ends-if (io.fails 0) t _ _ (Ends-same (err driver_failed) t) rest)

  after_abort-Moved :
      (n : ℕ) (t : Tables) (step : Result TxError Bool × Tables)
      (rest : ℕ × Option TxError × Tables)
      → Moved t step.1
      → Moved step.1 rest.2
      → Moved t (after_abort env json s n step rest).2
  after_abort-Moved n t (err f, u) rest p q = p
  after_abort-Moved n t (ok done, u) rest p q = Moved-trans t u rest.2 p q

  abort_all-Moved :
      (ios : ℕ → TxIo) (i n : ℕ) (es : List Execution) (t : Tables)
      → Moved t (abort_all env json s ios i n es t).2
  unfolding abort_all
  abort_all-Moved ios i n [] t = Moved-refl t
  abort_all-Moved ios i n (e ∷ es) t =
      let step : Result TxError Bool × Tables = abort env json s true (ios i) e t in
      after_abort-Moved n t step _ (Ends-abort true (ios i) e t).moved
        (abort_all-Moved ios (suc i) (counted env json s n step.0) es step.1)

  reconciled-Moved :
      (ios : ℕ → TxIo) (r : Result TxError (List Execution)) (t : Tables)
      → Moved t (reconciled env json s ios r t).2
  reconciled-Moved ios (err f) t = Moved-refl t
  reconciled-Moved ios (ok es) t = abort_all-Moved ios 0 0 es t

  if_moved :
      (b : Bool) (t : Tables) (x y : ℕ × Option TxError × Tables)
      → Moved t x.2
      → Moved t y.2
      → Moved t (if b then x else y).2
  if_moved true t x y p q = p
  if_moved false t x y p q = q

  pub reconcile_once-Moved :
      (failed : Bool) (now : ℕ) (ios : ℕ → TxIo) (limit : ℤ) (t : Tables)
      → Moved t (reconcile_once env json s failed now ios limit t).2
  unfolding reconcile_once
  reconcile_once-Moved failed now ios limit t =
      if_moved (ltb_ℤ limit (pos 1) || ltb_ℤ (pos 1000) limit) t
        (0, some (protocol invalid_plan), t) _ (Moved-refl t)
        (if_moved failed t (0, some driver_failed, t) _ (Moved-refl t) (reconciled-Moved ios _ t))

  pub Ends-record_half :
      (io : TxIo) (e : Execution) (r : Reference) (h : HalfReceipt) (t : Tables)
      → Ends t (record_half env json s io e r h t)
  unfolding record_half
  Ends-record_half io e r h t =
      search (ends_rules, Moves-bind, Bodies.Moves-locked_state, Bodies.Moves-half_body) depth 8

  pub Ends-record_final :
      (io : TxIo) (e : Execution) (r : Reference) (f : FinalOutcome) (code : Bytes) (t : Tables)
      → Ends t (record_final env json s io e r f code t)
  unfolding record_final
  Ends-record_final io e r f code t =
      search (ends_rules, Moves-bind, Bodies.Moves-locked_state, Bodies.Moves-final_body) depth 8

  pub Ends-recover :
      (io : TxIo) (r : Reference) (f : FinalOutcome) (t : Tables)
      (o : Result TransactionError State)
      → Ends t (recover env json s io r f t o)
  Ends-recover io r f t (err e) = Ends-same _ t
  Ends-recover io r f t (ok state) = search (ends_rules, Bodies.Moves-recovery_body) depth 8

  pub Ends-record_recovery_final :
      (io : TxIo) (r : Reference) (f : FinalOutcome) (t : Tables)
      → Ends t (record_recovery_final env json s io r f t)
  unfolding record_recovery_final
  Ends-record_recovery_final io r f t = Ends-recover io r f t (recovery_final_state f)
