-- ===== src/Transaction/Evidence.antt =====
-- transaction/evidence.go: protocol references, the evidence of the host database, and the decision
-- that the broker's check receives. A state is a string in Go: `other` is any unexpected text.
pub mod Resolve
use reliable_messaging.Base.{
  ℕ, Bool, true, false, not, ◌&&◌, ◌||◌, List, [], ◌∷◌, Option, none, some, ltb, leb, ◌==◌,
  if◌then◌else◌, Result, ok, err,
}
use reliable_messaging.Base.Bytes.{Bytes, bytes_eq}
use reliable_messaging.Env.{Env}
use reliable_messaging.Transaction.Plan.{
  BranchInput, FrozenPlan, TransactionError, invalid_plan, max_fence, required, plan_valid,
}

pub data State : Type 0 where
  prepared committed aborted : State
  other : Bytes → State

pub data Decision : Type 0 where
  unknown commit rollback : Decision

pub data HalfOutcome : Type 0 where
  half_not_attempted half_prepared half_rejected half_unknown : HalfOutcome
  half_other : Bytes → HalfOutcome

pub data LocalOutcome : Type 0 where
  local_not_started local_committed local_aborted local_unknown : LocalOutcome

pub data FinalOutcome : Type 0 where
  final_not_attempted commit_confirmed rollback_confirmed final_unknown : FinalOutcome
  final_other : Bytes → FinalOutcome

pub record Reference : Type 0 where
  pub owner : Bytes
  pub scope : Bytes
  pub operation_id : Bytes
  pub branch_id : Bytes
  pub message_id : Bytes
  pub logical_topic : Bytes
  pub physical_topic : Bytes
  pub route_revision : Bytes
  pub writer_epoch : Bytes
  pub plan_digest : Bytes
  pub wire_hash : Bytes
  pub message_fingerprint : Bytes
  pub fence : ℕ

-- `Reference.Valid`
unfoldable pub ref_valid : Reference → Bool
ref_valid r =
    ltb 0 r.fence
    && leb r.fence max_fence
    && required (
        r.owner ∷ r.scope ∷ r.operation_id ∷ r.branch_id ∷ r.message_id ∷ r.logical_topic
        ∷ r.physical_topic ∷ r.route_revision ∷ r.writer_epoch ∷ [])

-- `==` on references
unfoldable pub ref_eq : Reference → Reference → Bool
ref_eq r s =
    bytes_eq r.owner s.owner
    && bytes_eq r.scope s.scope
    && bytes_eq r.operation_id s.operation_id
    && bytes_eq r.branch_id s.branch_id
    && bytes_eq r.message_id s.message_id
    && bytes_eq r.logical_topic s.logical_topic
    && bytes_eq r.physical_topic s.physical_topic
    && bytes_eq r.route_revision s.route_revision
    && bytes_eq r.writer_epoch s.writer_epoch
    && bytes_eq r.plan_digest s.plan_digest
    && bytes_eq r.wire_hash s.wire_hash
    && bytes_eq r.message_fingerprint s.message_fingerprint
    && (r.fence == s.fence)

module _ (env : Env) where
  abbrev pub reference_to : FrozenPlan → BranchInput → ℕ → Bytes → Reference
  reference_to p b fence epoch = record {
    owner = p.input.owner;
    scope = p.input.scope;
    operation_id = p.input.operation_id;
    branch_id = b.id;
    message_id = b.message.input.id;
    logical_topic = b.message.input.destination;
    physical_topic = b.physical_topic;
    route_revision = b.route_revision;
    writer_epoch = epoch;
    plan_digest = p.digest;
    wire_hash = env.sha256 b.wire;
    message_fingerprint = b.message.fingerprint;
    fence = fence;
  }

  -- The loop over the branches: the first one with the identifier.
  unfoldable pub find_branch :
      FrozenPlan → Bytes → ℕ → Bytes → List BranchInput → Result TransactionError Reference
  find_branch p id fence epoch [] = err invalid_plan
  find_branch p id fence epoch (b ∷ bs) =
      let rest = find_branch p id fence epoch bs in
      if not (bytes_eq b.id id) then rest else ok (reference_to p b fence epoch)

  -- `FrozenPlan.Reference`
  unfoldable pub reference : FrozenPlan → Bytes → ℕ → Bytes → Result TransactionError Reference
  unfolding plan_valid
  reference p id fence epoch =
      if not (plan_valid p) || fence == 0 || ltb max_fence fence || not (required (epoch ∷ []))
      then err invalid_plan
      else find_branch p id fence epoch p.input.branches

pub record Evidence : Type 0 where
  pub about : Reference
  pub execution_state : State
  pub branch_state : State

abbrev pub is_committed : State → Bool
is_committed committed = true
is_committed _ = false

abbrev pub is_aborted : State → Bool
is_aborted aborted = true
is_aborted _ = false

unfoldable pub resolve : Reference → Option Evidence → Decision
resolve r none = unknown
resolve r (some e) =
    if not (ref_valid r) || not (ref_eq e.about r)
    then unknown
    else if is_committed e.execution_state && is_committed e.branch_state
    then commit
    else if is_aborted e.execution_state && is_aborted e.branch_state
    then rollback
    else unknown
