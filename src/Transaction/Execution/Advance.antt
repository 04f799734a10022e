-- ===== src/Transaction/Execution/Advance.antt =====
-- transaction/store.go: `ValidateAdvance` lets a host retry or replan only over the exact prior
-- execution, proved aborted in every branch.
use reliable_messaging.Base.{◌<◌, Bool, true, false, List, ◌≡◌, ◌≢◌, ◌↔◌, arith, ok, Option}
use reliable_messaging.Base.Bytes.{bytes_eq, bytes_eq_iff}
use reliable_messaging.Env.{Env}
use reliable_messaging.Transaction.Plan.{FrozenPlan, plan_valid, max_fence, match_request}
use reliable_messaging.Transaction.Plan.Checks.{match_request_cases}
use reliable_messaging.Transaction.Evidence.{aborted, local_aborted, Evidence}
use reliable_messaging.Transaction.Execution.{
  Execution, references, decide_local, validate_advance, is_local_aborted, LocalOutcome,
}
use reliable_messaging.Transaction.Execution.Decide.{IsProof, decide_local_iff}

-- What an authorized advance rests on.
pub record IsAdvance (env : Env) (previous : Execution) (candidate : FrozenPlan)
    (evidence : List (Option Evidence)) (replan : Bool) : Type 0 where
  pub fence_pos : 0 < previous.fence
  pub fence_below : previous.fence < max_fence
  pub previous_valid : plan_valid previous.plan ≡ true
  pub candidate_valid : plan_valid candidate ≡ true
  pub same_owner : candidate.input.owner ≡ previous.plan.input.owner
  pub same_scope : candidate.input.scope ≡ previous.plan.input.scope
  pub same_key : candidate.input.idempotency_key ≡ previous.plan.input.idempotency_key
  pub same_hash : candidate.input.input_hash ≡ previous.plan.input.input_hash
  pub all_aborted : IsProof (references env previous) evidence aborted
  pub replan_fresh : replan ≡ true → candidate.input.operation_id ≢ previous.plan.input.operation_id
  pub retry_same : replan ≡ false → candidate.digest ≡ previous.plan.digest

is_local_aborted_iff : (l : LocalOutcome) → (is_local_aborted l ≡ true) ↔ (l ≡ local_aborted)
is_local_aborted_iff l = ground arith

abbrev RequestOf : Execution → FrozenPlan → Type 0
RequestOf e p =
    let q = e.plan.input in match_request p q.owner q.scope q.idempotency_key q.input_hash ≡ ok tt

module _ (previous : Execution) (candidate : FrozenPlan) where
  requests : RequestOf previous candidate ↔ (
      (plan_valid candidate ≡ true)
      × ((candidate.input.owner ≡ previous.plan.input.owner)
          × (candidate.input.scope ≡ previous.plan.input.scope)
          × (candidate.input.idempotency_key ≡ previous.plan.input.idempotency_key))
      × (candidate.input.input_hash ≡ previous.plan.input.input_hash))
  requests = (match_request_cases candidate _ _ _ _).0

  operations :
      (bytes_eq candidate.input.operation_id previous.plan.input.operation_id ≡ true)
      ↔ (candidate.input.operation_id ≡ previous.plan.input.operation_id)
  operations = bytes_eq_iff _ _

  digests :
      (bytes_eq candidate.digest previous.plan.digest ≡ true)
      ↔ (candidate.digest ≡ previous.plan.digest)
  digests = bytes_eq_iff _ _

-- An advance is allowed exactly if the prior fence is positive and can still grow, both plans are
-- valid and answer one business request, the evidence proves every branch of the prior execution
-- aborted, and a replan takes a new operation while a retry keeps the frozen plan.
pub validate_advance_iff :
    (env : Env) (previous : Execution) (candidate : FrozenPlan) (evidence : List (Option Evidence))
    (replan : Bool)
    → (validate_advance env previous candidate evidence replan ≡ ok tt)
      ↔ IsAdvance env previous candidate evidence replan
unfolding validate_advance
validate_advance_iff env previous candidate evidence replan = (
  λ h.
      let l : decide_local (references env previous) evidence ≡ local_aborted = ground arith in
      let m : RequestOf previous candidate = ground arith in
      let (_, (o, s, k), i) = (requests previous candidate).0 m in
      record {
        fence_pos = ground arith;
        fence_below = ground arith;
        previous_valid = ground arith;
        candidate_valid = ground arith;
        same_owner = o;
        same_scope = s;
        same_key = k;
        same_hash = i;
        all_aborted = (decide_local_iff _ _).1.0 l;
        replan_fresh = λ r. ground (arith, operations previous candidate);
        retry_same = λ r. ground (arith, digests previous candidate);
      },
  λ a. ground (
    arith,
    (requests previous candidate).1
        (a.candidate_valid, (a.same_owner, a.same_scope, a.same_key), a.same_hash),
    (decide_local_iff (references env previous) evidence).1.1 a.all_aborted,
    operations previous candidate,
    digests previous candidate,
    a.replan_fresh,
    a.retry_same,
  ),
)
