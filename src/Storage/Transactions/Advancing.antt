-- ===== src/Storage/Transactions/Advancing.antt =====
-- storage/transaction/mysql/store.go: what `Retry` and `Replan` grant.
use reliable_messaging.Base.{
  ℕ, ◌+◌, Bool, true, not, ◌&&◌, ◌||◌, ◌≡◌, refl, ◌==◌, leb, Result, ok, err,
}
use reliable_messaging.Base.Bytes.{bytes_eq}
use reliable_messaging.Base.Int.{ℤ}
use reliable_messaging.Env.{Env}
use reliable_messaging.Transaction.Plan.{
  FrozenPlan, TransactionError, invalid_plan, binding_mismatch, plan_valid, max_fence,
}
use reliable_messaging.Transaction.Execution.{
  request_match, request_for, Binding, options_valid, Execution, validate_advance, references,
}
use reliable_messaging.Transaction.Codec.{Json}
use reliable_messaging.Storage.Transactions.Rows.{Tables}
use reliable_messaging.Storage.Transactions.Monad.{protocol, TxIo, lift}
use reliable_messaging.Storage.Transactions.Reading.{Reservation, lift_protocol, key_of}
use reliable_messaging.Storage.Transactions.Granting.{granted, advance_in, advance, other_execution}
use reliable_messaging.Storage.Transactions.Inversion.{lift-ok, if_ok, in_transaction-ok}
use reliable_messaging.Storage.Transactions.Once.{Returns, Returns-pure, Returns-bind}
use reliable_messaging.Storage.Transactions.Capability.{
  IsGrant, IsExecution, Returns-with, new_execution-Returns, if_matched-ok,
}
use reliable_messaging.Storage.Transactions.Reads.{
  Gives, Gives-bind, Gives-Returns, Reads-reject, binding_in-Reads, lookup_in-Reads,
  read_witnesses-Reads,
}
use reliable_messaging.Storage.Transactions.Permission.{Permits, looked-IsActive, permitted-Permits}

module _ (env : Env) (json : Json) (s : Binding) where
  abbrev pub Advances : Execution → FrozenPlan → Bool → Tables → Reservation → Type 0
  Advances previous p replan t r =
      IsGrant s p (previous.fence + 1) r × Permits env json s previous p replan t

  protocol_ok :
      (o : Result TransactionError (Unit {0})) (a : Unit {0}) → lift_protocol o ≡ ok a → o ≡ ok tt
  protocol_ok (ok a) b e = refl
  protocol_ok (err f) b e = absurd (cc)

  permitted :
      (o : Result TransactionError (Unit {0}))
      → Returns (λ (x : Unit {0}). o ≡ ok tt) (lift (lift_protocol o))
  permitted o = record {
    at = λ io' k t a j u e. protocol_ok o a (lift-ok (lift_protocol o) io' k t a j u e);
  }

  execution-IsGrant :
      (p : FrozenPlan) (fence : ℕ) (e : Execution)
      → IsExecution s p fence e
      → IsGrant s p fence (granted e)
  execution-IsGrant p fence e (a, b, c) = record {
    is_acquired = refl;
    is_prepared = refl;
    for_plan = a;
    next_fence = b;
    same_epoch = c;
  }

  advance_in-Gives :
      (io : TxIo) (previous : Execution) (p : FrozenPlan) (lease : ℤ) (replan : Bool) (t : Tables)
      → Gives
          (Advances previous p replan t)
          (advance_in env json s io (request_for previous.plan) previous p lease replan)
          t
  unfolding advance_in
  advance_in-Gives io previous p lease replan t =
      Gives-bind _ _ _ (binding_in-Reads env json s true) _ t (λ bound x.
        Gives-bind _ _ _ (lookup_in-Reads env json s (request_for previous.plan)) _ t
          (λ current looked.
            Gives-bind _ _ _ (Reads-reject (other_execution env json s current previous) _) _ t
              (λ passed same.
                Gives-bind _ _ _
                  (read_witnesses-Reads env json s (key_of env json previous) current.state
                    (references env previous))
                  _ t
                  (λ evidence witnessed. Gives-Returns _ _ t (
                    Returns-with (λ x. validate_advance env previous p evidence replan ≡ ok tt)
                      (Advances previous p replan t) _ _
                      (permitted (validate_advance env previous p evidence replan))
                      (λ x valid.
                        Returns-with (IsExecution s p (previous.fence + 1))
                          (Advances previous p replan t) _ _
                          (new_execution-Returns env json s io p (previous.fence + 1) lease)
                          (λ e h. Returns-bind _ _ _ (λ inserted. Returns-bind _ _ _ (λ switched.
                            Returns-pure _ (granted e) (
                              execution-IsGrant p (previous.fence + 1) e h,
                              permitted-Permits env json s previous p replan t current evidence
                                  (looked-IsActive env json s previous t current looked same)
                                  witnessed valid,
                            ))))))))))

  -- A reservation that `Retry` or `Replan` returns is acquired with the fence after the previous one,
  -- prepared and under the store's epoch. The request's active execution in the tables of the call is
  -- the previous one and aborted, every reference of it has its aborted witness row there, and the
  -- plans permit the advance.
  pub advance-returns :
      (io : TxIo) (previous : Execution) (p : FrozenPlan) (lease : ℤ) (replan : Bool) (t : Tables)
      (r : Reservation)
      → (advance env json s io previous p lease replan t).0 ≡ ok r
      → Advances previous p replan t r
  unfolding advance
  advance-returns io previous p lease replan t r done =
      let q = request_for previous.plan in
      let (_, h₁, _) =
        if_ok
          (not (plan_valid previous.plan)
            || not (plan_valid p)
            || not (options_valid lease)
            || previous.fence == 0
            || leb max_fence previous.fence)
          (protocol invalid_plan) t _ r done in
      let (_, h₂, _) =
        if_ok (not (bytes_eq q.owner s.owner)) (protocol binding_mismatch) t _ r h₁ in
      let (h₃, _) = if_matched-ok env json s (request_match q p) t _ r h₂ in
      let (_, h₄, _) =
        if_ok (replan && bytes_eq p.input.operation_id previous.plan.input.operation_id)
          (protocol invalid_plan) t _ r h₃ in
      let (k, u, ran, _) =
        in_transaction-ok io (advance_in env json s io q previous p lease replan) t r h₄ in
      (advance_in-Gives io previous p lease replan t).at io 1 r k u ran
