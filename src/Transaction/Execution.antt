-- ===== src/Transaction/Execution.antt =====
-- transaction/store.go, and `MatchExecution` of transaction/receipt.go: requests, executions with their fence and token,
-- the classification of half sends, the local outcome from evidence, and the check of an advance.
pub mod References
pub mod Decide
pub mod Advance
use reliable_messaging.Base.{
  ℕ, ◌*◌, ◌^◌, Bool, true, false, not, ◌&&◌, ◌||◌, List, [], ◌∷◌, ◌++◌, Option, none, some, ltb,
  leb, ◌==◌, if◌then◌else◌, length, is_empty, Result, ok, err, ◌>>=◌, ◌>>◌, reject_if, map,
}
use reliable_messaging.Base.Bytes.{Bytes, literal, bytes_eq, put_uint64, valid_utf8}
use reliable_messaging.Base.Framing.{length_prefixed}
use reliable_messaging.Base.Int.{ℤ, pos, leb_ℤ}
use reliable_messaging.Env.{Env}
use reliable_messaging.Message.{no_digest}
use reliable_messaging.Transaction.Plan.{
  BranchInput, FrozenPlan, no_plan, TransactionError, invalid_plan, stale_execution, max_fence,
  required, plan_valid, match_request,
}
use reliable_messaging.Transaction.Evidence.{
  State, prepared, committed, aborted, Decision, unknown, commit, rollback, HalfOutcome,
  half_not_attempted, half_prepared, half_rejected, half_unknown, LocalOutcome, local_not_started,
  local_committed, local_aborted, local_unknown, FinalOutcome, final_not_attempted,
  commit_confirmed, rollback_confirmed, final_unknown, Reference, ref_valid, ref_eq, reference,
  Evidence, resolve,
}

pub record Request : Type 0 where
  pub owner : Bytes
  pub scope : Bytes
  pub key : Bytes
  pub input_hash : Bytes

unfoldable pub request_for : FrozenPlan → Request
request_for p = record {
  owner = p.input.owner;
  scope = p.input.scope;
  key = p.input.idempotency_key;
  input_hash = p.input.input_hash;
}

-- `Request.Match`
unfoldable pub request_match : Request → FrozenPlan → Result TransactionError (Unit {0})
request_match r p = match_request p r.owner r.scope r.key r.input_hash

unfoldable pub request_valid : Request → Bool
request_valid r = required (r.owner ∷ r.scope ∷ r.key ∷ [])

pub record Binding : Type 0 where
  pub owner : Bytes
  pub store_id : Bytes
  pub writer_epoch : Bytes

unfoldable pub binding_valid : Binding → Bool
binding_valid b = required (b.owner ∷ b.store_id ∷ b.writer_epoch ∷ [])

-- `ReserveOptions.Valid`: a lease of 1ms to 24h, in nanoseconds
unfoldable pub options_valid : ℤ → Bool
options_valid lease = leb_ℤ (pos 1000000) lease && leb_ℤ lease (pos 86400000000000)

module _ (env : Env) where
  -- `KeyDigest` and `ExecutionKey`; the loop of the latter writes the fence as `PutUint64` does.
  unfoldable pub key_digest : Request → Bytes
  key_digest r =
      env.sha256
        (literal "rm-tx-request-v1" ++ (0 ∷ length_prefixed (r.owner ∷ r.scope ∷ r.key ∷ [])))

  unfoldable pub execution_key : Bytes → Bytes → Bytes → ℕ → Bytes
  execution_key owner operation epoch fence = env.sha256 (
      literal "rm-tx-execution-v1"
      ++ (0 ∷ length_prefixed (owner ∷ operation ∷ epoch ∷ put_uint64 fence ∷ [])))

-- A time is counted in nanoseconds since Go's zero time; `IsZero` is 0.
pub record Execution : Type 0 where
  pub plan : FrozenPlan
  pub fence : ℕ
  pub writer_epoch : Bytes
  pub token : Bytes
  pub lease_until : ℕ

unfoldable pub execution_valid : Execution → Bool
execution_valid e =
    plan_valid e.plan
    && ltb 0 e.fence
    && leb e.fence max_fence
    && required (e.writer_epoch ∷ [])
    && not (bytes_eq e.token no_digest)
    && not (e.lease_until == 0)

-- `Reference{}`
abbrev pub no_reference : Reference
no_reference = record {
  owner = [];
  scope = [];
  operation_id = [];
  branch_id = [];
  message_id = [];
  logical_topic = [];
  physical_topic = [];
  route_revision = [];
  writer_epoch = [];
  plan_digest = no_digest;
  wire_hash = no_digest;
  message_fingerprint = no_digest;
  fence = 0;
}

-- What remains of `r, _ := p.Reference(...)`.
abbrev pub reference_or_zero : Result TransactionError Reference → Reference
reference_or_zero (ok r) = r
reference_or_zero (err e) = no_reference

module _ (env : Env) where
  unfoldable pub references_of : Execution → List BranchInput → List Reference
  references_of e [] = []
  references_of e (b ∷ bs) =
      reference_or_zero (reference env e.plan b.id e.fence e.writer_epoch) ∷ references_of e bs

  -- `Execution.References`
  unfoldable pub references : Execution → List Reference
  references e =
      if not (plan_valid e.plan)
        || e.fence == 0
        || ltb max_fence e.fence
        || not (required (e.writer_epoch ∷ []))
      then []
      else references_of e e.plan.input.branches

  unfoldable pub contains_ref : List Reference → Reference → Bool
  contains_ref [] r = false
  contains_ref (s ∷ ss) r = ref_eq s r || contains_ref ss r

  -- `MatchExecution`
  unfoldable pub match_execution : Execution → Reference → Bool
  match_execution e r = if not (execution_valid e) then false else contains_ref (references e) r

unfoldable pub classify_half : Bool → Bool → HalfOutcome
classify_half confirmed rejected =
    if confirmed && not rejected
    then half_prepared
    else if rejected && not confirmed
    then half_rejected
    else half_unknown

abbrev pub same_execution : Reference → Reference → Bool
same_execution r s =
    bytes_eq r.owner s.owner
    && bytes_eq r.scope s.scope
    && bytes_eq r.operation_id s.operation_id
    && (r.fence == s.fence)
    && bytes_eq r.writer_epoch s.writer_epoch
    && bytes_eq r.plan_digest s.plan_digest

abbrev pub decision_eq : Decision → Decision → Bool
decision_eq unknown unknown = true
decision_eq commit commit = true
decision_eq rollback rollback = true
decision_eq _ _ = false

-- The loop of `DecideLocal` over the references and the evidence behind the first.
unfoldable pub agree : Reference → Decision → List Reference → List (Option Evidence) → Bool
agree first d [] es = true
agree first d (r ∷ rs) [] = true
agree first d (r ∷ rs) (e ∷ es) =
    let rest = agree first d rs es in
    if not (same_execution r first)
    then false
    else if not (decision_eq (resolve r e) d)
    then false
    else rest

abbrev pub local_of : Decision → LocalOutcome
local_of commit = local_committed
local_of _ = local_aborted

unfoldable pub decide_first :
    Reference → Option Evidence → List Reference → List (Option Evidence) → LocalOutcome
decide_first r e rs es =
    let d = resolve r e in
    if decision_eq d unknown
    then local_unknown
    else if not (agree r d rs es)
    then local_unknown
    else local_of d

unfoldable pub decide_local : List Reference → List (Option Evidence) → LocalOutcome
unfolding decide_first
decide_local [] es = local_unknown
decide_local (r ∷ rs) [] = local_unknown
decide_local (r ∷ rs) (e ∷ es) =
    if not (length rs == length es) then local_unknown else decide_first r e rs es

abbrev pub is_local_aborted : LocalOutcome → Bool
is_local_aborted local_aborted = true
is_local_aborted _ = false

pub record BranchResult : Type 0 where
  pub about : Reference
  pub half : HalfOutcome
  pub final : FinalOutcome
  pub broker_message_id : Bytes
  pub broker_transaction_id : Bytes
  pub error_code : Bytes

pub record ExecutionResult : Type 0 where
  pub local : LocalOutcome
  pub branches : List BranchResult

abbrev pub initial_branch : Reference → BranchResult
initial_branch r = record {
  about = r;
  half = half_not_attempted;
  final = final_not_attempted;
  broker_message_id = [];
  broker_transaction_id = [];
  error_code = [];
}

module _ (env : Env) where
  unfoldable pub initial_result : Execution → ExecutionResult
  initial_result e = record {
    local = local_not_started;
    branches = map initial_branch (references env e);
  }

  unfoldable pub validate_advance :
      Execution → FrozenPlan → List (Option Evidence) → Bool → Result TransactionError (Unit {0})
  unfolding request_match request_for
  validate_advance previous candidate evidence replan = do
    reject_if
        (previous.fence == 0
          || leb max_fence previous.fence
          || not (plan_valid previous.plan)
          || not (plan_valid candidate))
        invalid_plan
    request_match (request_for previous.plan) candidate
    reject_if (not (is_local_aborted (decide_local (references env previous) evidence)))
        stale_execution
    reject_if
        (if replan
          then bytes_eq candidate.input.operation_id previous.plan.input.operation_id
          else not (bytes_eq candidate.digest previous.plan.digest))
        invalid_plan
