-- ===== src/Transaction/Plan.antt =====
-- transaction/plan.go: frozen plans. `NewPlan` validates a request with its branches and digests
-- all of it; `Reference` (transaction/evidence.go) names one branch of a plan under one fence.
pub mod Checks
pub mod Digest
use reliable_messaging.Base.{
  ℕ, ◌-◌, ◌^◌, Bool, true, false, not, ◌&&◌, ◌||◌, List, [], ◌∷◌, ◌++◌, ltb, ◌==◌, if◌then◌else◌,
  length, is_empty, Result, ok, err,
}
use reliable_messaging.Base.Bytes.{Bytes, literal, valid_utf8, bytes_eq, put_uint64}
use reliable_messaging.Base.Framing.{length_prefixed}
use reliable_messaging.Env.{Env}
use reliable_messaging.Message.{Message, is_valid, no_digest}

-- The sentinel errors of the package (plan.go and store.go).
pub data TransactionError : Type 0 where
  invalid_plan request_identity input_conflict : TransactionError
  stale_execution transaction_required binding_mismatch schema_mismatch : TransactionError
  not_found shutdown_incomplete : TransactionError

abbrev pub max_fence : ℕ
max_fence = 2 ^ 63 - 1

abbrev pub max_branches : ℕ
max_branches = 16

pub record BranchInput : Type 0 where
  pub id : Bytes
  pub physical_topic : Bytes
  pub route_revision : Bytes
  pub message : Message
  pub wire : Bytes

pub record PlanInput : Type 0 where
  pub owner : Bytes
  pub scope : Bytes
  pub operation_id : Bytes
  pub idempotency_key : Bytes
  pub input_hash : Bytes
  pub branches : List BranchInput

pub record FrozenPlan : Type 0 where
  pub input : PlanInput
  pub digest : Bytes

-- `FrozenPlan{}`
abbrev pub no_plan : FrozenPlan
no_plan = record {
  input = record {
    owner = [];
    scope = [];
    operation_id = [];
    idempotency_key = [];
    input_hash = no_digest;
    branches = [];
  };
  digest = no_digest;
}

-- Every value is UTF-8 and not empty.
unfoldable pub required : List Bytes → Bool
required [] = true
required (v ∷ vs) = if is_empty v || not (valid_utf8 v) then false else required vs

-- The map of the branch identifiers seen so far.
unfoldable pub seen : Bytes → List Bytes → Bool
seen id [] = false
seen id (x ∷ xs) = bytes_eq id x || seen id xs

abbrev pub branch_too_long : BranchInput → Bool
branch_too_long b =
    ltb 128 (length b.id) || ltb 255 (length b.physical_topic) || ltb 128 (length b.route_revision)

abbrev pub branch_malformed : Bytes → List Bytes → BranchInput → Bool
branch_malformed scope ids b =
    not (required (b.id ∷ b.physical_topic ∷ b.route_revision ∷ []))
    || seen b.id ids
    || not (is_valid b.message)
    || is_empty b.wire
    || not (bytes_eq b.message.input.scope scope)

-- The loop over the branches, with the identifiers of the branches before.
unfoldable pub check_branches : Bytes → List Bytes → List BranchInput → Bool
check_branches scope ids [] = true
check_branches scope ids (b ∷ bs) =
    let rest = check_branches scope (b.id ∷ ids) bs in
    if branch_too_long b then false else if branch_malformed scope ids b then false else rest

module _ (env : Env) where
  unfoldable pub branch_values : List BranchInput → List Bytes
  branch_values [] = []
  branch_values (b ∷ bs) =
      b.id
      ∷ b.message.fingerprint
      ∷ b.physical_topic
      ∷ b.route_revision
      ∷ env.sha256 b.wire
      ∷ branch_values bs

  abbrev pub digested_values : PlanInput → List Bytes
  digested_values p =
      p.owner
      ∷ p.scope
      ∷ p.operation_id
      ∷ p.idempotency_key
      ∷ p.input_hash
      ∷ put_uint64 (length p.branches)
      ∷ branch_values p.branches

abbrev pub plan_domain : Bytes
plan_domain = literal "rm-tx-plan-draft-v1" ++ 0 ∷ []

module _ (env : Env) where
  unfoldable pub plan_preimage : PlanInput → Bytes
  plan_preimage p = plan_domain ++ length_prefixed (digested_values env p)

  unfoldable pub digest_of : PlanInput → Bytes
  digest_of p = env.sha256 (plan_preimage p)

  -- `NewPlan`; the copies that `clone` makes are the values themselves here.
  unfoldable pub new_plan : PlanInput → Result TransactionError FrozenPlan
  new_plan p =
      if not (required (p.owner ∷ p.scope ∷ p.operation_id ∷ p.idempotency_key ∷ []))
        || length p.branches == 0
        || ltb max_branches (length p.branches)
      then err invalid_plan
      else if ltb 128 (length p.owner)
          || ltb 255 (length p.scope)
          || ltb 128 (length p.operation_id)
          || ltb 1024 (length p.idempotency_key)
      then err invalid_plan
      else if not (check_branches p.scope [] p.branches)
      then err invalid_plan
      else ok (record { input = p; digest = digest_of p })

-- `FrozenPlan.Valid`
unfoldable pub plan_valid : FrozenPlan → Bool
plan_valid p = not (is_empty p.input.owner)

unfoldable pub match_request :
    FrozenPlan → Bytes → Bytes → Bytes → Bytes → Result TransactionError (Unit {0})
unfolding plan_valid
match_request p owner scope key input_hash =
    if not (plan_valid p)
      || not (bytes_eq p.input.owner owner)
      || not (bytes_eq p.input.scope scope)
      || not (bytes_eq p.input.idempotency_key key)
    then err request_identity
    else if not (bytes_eq p.input.input_hash input_hash)
    then err input_conflict
    else ok tt
