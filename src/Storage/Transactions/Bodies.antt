-- ===== src/Storage/Transactions/Bodies.antt =====
-- storage/transaction/mysql/: each transaction's body changes the tables in the allowed ways only.
use reliable_messaging.Base.{ℕ, Bool, true, false, List, [], ◌∷◌, ◌≡◌, arith}
use reliable_messaging.Base.Bytes.{Bytes}
use reliable_messaging.Base.Int.{ℤ}
use reliable_messaging.Env.{Env}
use reliable_messaging.Transaction.Plan.{FrozenPlan}
use reliable_messaging.Transaction.Evidence.{State, Reference, FinalOutcome}
use reliable_messaging.Transaction.Execution.{Request, Binding, Execution}
use reliable_messaging.Transaction.Receipt.{HalfReceipt}
use reliable_messaging.Transaction.Codec.{Json}
use reliable_messaging.Storage.Transactions.Rows.{ExecutionRow, WitnessRow}
use reliable_messaging.Storage.Transactions.Monad.{TxIo, Tx}
use reliable_messaging.Storage.Transactions.Reading.{binding_in, lookup_in}
use reliable_messaging.Storage.Transactions.Granting.{
  insert_witnesses, insert_execution, new_execution, open_request, read_witnesses, advance_in,
}
use reliable_messaging.Storage.Transactions.Ending.{
  startable, started, abortable, to_aborted, bindable, guarded, held, to_committed, waits,
  witness_aborted, witness_committed, check_witnesses, Guard, commit_witness, begin_prepare_in,
  abort_execution, abort_witnesses, bind, stored_plan_matches,
}
use reliable_messaging.Storage.Transactions.Receipts.{
  with_half, with_final, audit, unless, locked_state, half_body, final_body, recovery_body,
}
use reliable_messaging.Storage.Transactions.Evolution.{Evolves, Follows}
use reliable_messaging.Storage.Transactions.Moves.{
  Moves, Moves-pure, Moves-lift, Moves-query, Moves-reject, Moves-bind, Moves-add_witness,
  Moves-update_executions, Moves-update_witnesses, moves_rules,
}

started-Evolves :
    (now : ℕ) (key token : Bytes) (r : ExecutionRow)
    → startable now key token r ≡ true
    → Evolves r (started r)
started-Evolves now key token r h = ground arith

to_aborted-Evolves :
    (expired : Bool) (now : ℕ) (key token : Bytes) (r : ExecutionRow)
    → abortable expired now key token r ≡ true
    → Evolves r (to_aborted r)
to_aborted-Evolves expired now key token r h = ground arith

guarded-Evolves :
    (now : ℕ) (key token : Bytes) (r : ExecutionRow)
    → bindable now key token r ≡ true
    → Evolves r (guarded r)
guarded-Evolves now key token r h = ground arith

to_committed-Evolves :
    (key token : Bytes) (r : ExecutionRow) → held key token r ≡ true → Evolves r (to_committed r)
to_committed-Evolves key token r h = ground arith

aborted-Follows :
    (key : Bytes) (w : WitnessRow) → waits key w ≡ true → Follows w (witness_aborted w)
aborted-Follows key w h = ground arith

pub committed-Follows :
    (key : Bytes) (w : WitnessRow) → waits key w ≡ true → Follows w (witness_committed w)
committed-Follows key w h = ground arith

Moves-unless : (b : Bool) (m : Tx (Unit {0})) → Moves m → Moves (unless b m)
Moves-unless true m h = Moves-pure tt
Moves-unless false m h = h

Moves-with_half :
    (key branch : Bytes) (now : ℕ) (h : HalfReceipt) → Moves (audit key branch (with_half now h))
Moves-with_half key branch now h = search (moves_rules, Moves-update_witnesses)

Moves-with_final :
    (key branch : Bytes) (now : ℕ) (f : FinalOutcome) (code : Bytes)
    → Moves (audit key branch (with_final now f code))
Moves-with_final key branch now f code = search (moves_rules, Moves-update_witnesses)

module _ (env : Env) (json : Json) where
  pub Moves-insert_witnesses :
      (e : Execution) (rs : List Reference) → Moves (insert_witnesses env json e rs)
  unfolding insert_witnesses
  Moves-insert_witnesses e [] = Moves-pure tt
  Moves-insert_witnesses e (r ∷ rs) =
      let ih = Moves-insert_witnesses e rs in
      Moves-bind _ _ (Moves-lift _) (λ text. Moves-bind _ _ (Moves-add_witness _) (λ done. ih))

  pub Moves-insert_execution : (r : Request) (e : Execution) → Moves (insert_execution env json r e)
  unfolding insert_execution
  Moves-insert_execution r e = search (moves_rules, Moves-insert_witnesses) depth 14

  Moves-check_witnesses :
      (key : Bytes) (rs : List Reference) → Moves (check_witnesses env json key rs)
  unfolding check_witnesses
  Moves-check_witnesses key [] = Moves-pure tt
  Moves-check_witnesses key (r ∷ rs) =
      let ih = Moves-check_witnesses key rs in
      Moves-bind _ _ (Moves-query _) (λ w. Moves-bind _ _ (Moves-reject _ _) (λ done. ih))

  pub Moves-commit_witness : (g : Guard) → Moves (commit_witness env json g)
  unfolding commit_witness
  Moves-commit_witness g =
      search
        (
          moves_rules, Moves-update_witnesses, Moves-update_executions, committed-Follows,
          to_committed-Evolves,
        )
        depth 14

  pub Moves-stored_plan_matches :
      (key : Bytes) (p : FrozenPlan) → Moves (stored_plan_matches env json key p)
  Moves-stored_plan_matches key p = search moves_rules depth 12

  module _ (s : Binding) where
    pub Moves-abort_witnesses : (e : Execution) → Moves (abort_witnesses env json s e)
    unfolding abort_witnesses
    Moves-abort_witnesses e = search (moves_rules, Moves-update_witnesses, aborted-Follows) depth 12

    pub Moves-binding_in : (writer : Bool) → Moves (binding_in env json s writer)
    unfolding binding_in
    Moves-binding_in writer = search moves_rules depth 12

    Moves-lookup_in : (r : Request) → Moves (lookup_in env json s r)
    unfolding lookup_in
    Moves-lookup_in r = search moves_rules depth 12

    Moves-read_witnesses :
        (key : Bytes) (state : State) (rs : List Reference)
        → Moves (read_witnesses env json s key state rs)
    unfolding read_witnesses
    Moves-read_witnesses key state [] = Moves-pure []
    Moves-read_witnesses key state (r ∷ rs) =
        let ih = Moves-read_witnesses key state rs in
        Moves-bind _ _ (Moves-query _)
          (λ w. Moves-bind _ _ (Moves-lift _) (λ actual. Moves-bind _ _ ih (λ rest. Moves-pure _)))

    Moves-new_execution :
        (io : TxIo) (p : FrozenPlan) (fence : ℕ) (lease : ℤ)
        → Moves (new_execution env json s io p fence lease)
    unfolding new_execution
    Moves-new_execution io p fence lease = search moves_rules depth 12

    pub Moves-open_request :
        (io : TxIo) (r : Request) (p : FrozenPlan) (lease : ℤ)
        → Moves (open_request env json s io r p lease)
    unfolding open_request
    Moves-open_request io r p lease =
        search (moves_rules, Moves-binding_in, Moves-new_execution) depth 14

    pub Moves-advance_in :
        (io : TxIo) (r : Request) (previous : Execution) (p : FrozenPlan) (lease : ℤ)
        (replan : Bool)
        → Moves (advance_in env json s io r previous p lease replan)
    unfolding advance_in
    Moves-advance_in io r previous p lease replan =
        search
          (
            moves_rules, Moves-binding_in, Moves-lookup_in, Moves-read_witnesses,
            Moves-new_execution, Moves-insert_execution,
          )
          depth 14

    pub Moves-begin_prepare_in :
        (now : ℕ) (e : Execution) → Moves (begin_prepare_in env json s now e)
    unfolding begin_prepare_in
    Moves-begin_prepare_in now e =
        search (moves_rules, Moves-binding_in, Moves-update_executions, started-Evolves) depth 14

    pub Moves-abort_execution :
        (expired : Bool) (now : ℕ) (e : Execution)
        → Moves (abort_execution env json s expired now e)
    unfolding abort_execution
    Moves-abort_execution expired now e =
        search (moves_rules, Moves-binding_in, Moves-update_executions, to_aborted-Evolves) depth 14

    pub Moves-guard_bind :
        (has_tx : Bool) (now : ℕ) (e : Execution) → Moves (bind env json s has_tx now e)
    unfolding bind
    Moves-guard_bind has_tx now e =
        search
          (
            moves_rules, Moves-binding_in, Moves-update_executions, guarded-Evolves,
            Moves-check_witnesses,
          )
          depth 14

    pub Moves-locked_state : (e : Execution) (r : Reference) → Moves (locked_state env json s e r)
    unfolding locked_state
    Moves-locked_state e r = search (moves_rules, Moves-binding_in) depth 14

    pub Moves-half_body :
        (now : ℕ) (e : Execution) (r : Reference) (h : HalfReceipt) (state : State)
        → Moves (half_body env json s now e r h state)
    unfolding half_body
    Moves-half_body now e r h state = search (moves_rules, Moves-with_half) depth 14

    pub Moves-final_body :
        (now : ℕ) (e : Execution) (r : Reference) (f : FinalOutcome) (code : Bytes) (state : State)
        → Moves (final_body env json s now e r f code state)
    unfolding final_body
    Moves-final_body now e r f code state = search (moves_rules, Moves-with_final) depth 14

    pub Moves-recovery_body :
        (now : ℕ) (r : Reference) (f : FinalOutcome) (state : State)
        → Moves (recovery_body env json s now r f state)
    unfolding recovery_body
    Moves-recovery_body now r f state =
        search (moves_rules, Moves-binding_in, Moves-unless, Moves-with_final) depth 14
