-- ===== src/Transaction/Codec.antt =====
-- transaction/codec.go and transaction/reference_codec.go: the stored text of plans and references.
-- encoding/json is outside: `Json` has its `Marshal` for the two stored types, and its decoder with
-- unknown fields disallowed, which gives the value and whether the input ends behind it.
pub mod Faithful
pub mod References
pub mod Plans
pub mod Decoded
use reliable_messaging.Base.{
  ℕ, ◌*◌, ◌^◌, Bool, not, ◌||◌, ◌&&◌, List, [], ◌∷◌, Option, none, some, ltb, ◌==◌, if◌then◌else◌,
  length, is_empty, Result, ok, err, ◌>>=◌, ◌>>◌, reject_if,
}
use reliable_messaging.Base.Bytes.{Bytes, bytes_eq}
use reliable_messaging.Base.Text.{hex}
use reliable_messaging.Base.Hex.{unhex}
use reliable_messaging.Env.{Env}
use reliable_messaging.Message.{Input, Message, MessageError, new}
use reliable_messaging.Transaction.Plan.{
  BranchInput, PlanInput, FrozenPlan, TransactionError, invalid_plan, plan_valid, new_plan,
}
use reliable_messaging.Transaction.Evidence.{Reference, ref_valid}

pub record StoredReference : Type 0 where
  pub owner : Bytes
  pub scope : Bytes
  pub operation : Bytes
  pub branch : Bytes
  pub message : Bytes
  pub logical : Bytes
  pub physical : Bytes
  pub revision : Bytes
  pub epoch : Bytes
  pub plan : Bytes
  pub wire : Bytes
  pub fingerprint : Bytes
  pub fence : ℕ

-- The fields of `storedMessage` are those of a message's input.
pub record StoredBranch : Type 0 where
  pub id : Bytes
  pub physical_topic : Bytes
  pub revision : Bytes
  pub message : Input
  pub wire : Bytes

pub record StoredPlan : Type 0 where
  pub version : ℕ
  pub owner : Bytes
  pub scope : Bytes
  pub operation : Bytes
  pub key : Bytes
  pub input_hash : Bytes
  pub digest : Bytes
  pub branches : List StoredBranch

pub record Json : Type 0 where
  pub marshal_reference : StoredReference → Option Bytes
  pub decode_reference : Bytes → Option (StoredReference × Bool)
  pub marshal_plan : StoredPlan → Option Bytes
  pub decode_plan : Bytes → Option (StoredPlan × Bool)

-- An error of the package, of encoding/json, or of `message.New`.
pub data CodecError : Type 0 where
  refused : TransactionError → CodecError
  json_failed : CodecError
  content : MessageError → CodecError

abbrev pub codec_version : ℕ
codec_version = 1

abbrev pub max_plan_bytes : ℕ
max_plan_bytes = 8 * 2 ^ 20

abbrev pub stored_reference : Reference → StoredReference
stored_reference r = record {
  owner = r.owner;
  scope = r.scope;
  operation = r.operation_id;
  branch = r.branch_id;
  message = r.message_id;
  logical = r.logical_topic;
  physical = r.physical_topic;
  revision = r.route_revision;
  epoch = r.writer_epoch;
  plan = hex r.plan_digest;
  wire = hex r.wire_hash;
  fingerprint = hex r.message_fingerprint;
  fence = r.fence;
}

-- One round of the loop over the digests: 32 bytes in hexadecimal.
abbrev pub sized_digest : Option Bytes → Result CodecError Bytes
sized_digest none = err (refused invalid_plan)
sized_digest (some h) = if not (length h == 32) then err (refused invalid_plan) else ok h

unfoldable pub read_digest : Bytes → Result CodecError Bytes
read_digest text = sized_digest (unhex text)

abbrev pub reference_of : StoredReference → Bytes → Bytes → Bytes → Reference
reference_of s plan wire fingerprint = record {
  owner = s.owner;
  scope = s.scope;
  operation_id = s.operation;
  branch_id = s.branch;
  message_id = s.message;
  logical_topic = s.logical;
  physical_topic = s.physical;
  route_revision = s.revision;
  writer_epoch = s.epoch;
  plan_digest = plan;
  wire_hash = wire;
  message_fingerprint = fingerprint;
  fence = s.fence;
}

-- What `DecodeReference` makes of the decoded value.
unfoldable pub read_reference : StoredReference → Result CodecError Reference
unfolding read_digest
read_reference s = do
  plan ← read_digest s.plan
  wire ← read_digest s.wire
  fingerprint ← read_digest s.fingerprint
  reject_if (not (ref_valid (reference_of s plan wire fingerprint))) (refused invalid_plan)
  ok (reference_of s plan wire fingerprint)

abbrev pub capped : ℕ → Bytes → CodecError → Result CodecError Bytes
capped limit bytes e = if ltb limit (length bytes) then err e else ok bytes

-- What follows a decoding: an error of the decoder, or the value, behind which the input ends.
abbrev pub decoded {ℓ} :
    {A B : Type ℓ} → Option (A × Bool) → (A → Result CodecError B) → Result CodecError B
decoded none k = err json_failed
decoded (some (s, ends)) k = if not ends then err (refused invalid_plan) else k s

module _ (json : Json) where
  abbrev pub marshalled : Option Bytes → Result CodecError Bytes
  marshalled none = err (refused invalid_plan)
  marshalled (some bytes) = capped 8192 bytes (refused invalid_plan)

  unfoldable pub encode_reference : Reference → Result CodecError Bytes
  encode_reference r =
      if not (ref_valid r)
      then err (refused invalid_plan)
      else marshalled (json.marshal_reference (stored_reference r))

  unfoldable pub decode_reference : Bytes → Result CodecError Reference
  unfolding read_reference
  decode_reference bytes =
      if length bytes == 0 || ltb 8192 (length bytes)
      then err (refused invalid_plan)
      else decoded (json.decode_reference bytes) read_reference

abbrev pub stored_branch : BranchInput → StoredBranch
stored_branch b = record {
  id = b.id;
  physical_topic = b.physical_topic;
  revision = b.route_revision;
  message = b.message.input;
  wire = b.wire;
}

unfoldable pub stored_branches : List BranchInput → List StoredBranch
stored_branches [] = []
stored_branches (b ∷ bs) = stored_branch b ∷ stored_branches bs

unfoldable pub stored_plan : FrozenPlan → StoredPlan
unfolding stored_branches
stored_plan p = record {
  version = codec_version;
  owner = p.input.owner;
  scope = p.input.scope;
  operation = p.input.operation_id;
  key = p.input.idempotency_key;
  input_hash = hex p.input.input_hash;
  digest = hex p.digest;
  branches = stored_branches p.input.branches;
}

-- `json.Marshal` with its error, or text of at most the limit.
abbrev pub marshalled_plan : Option Bytes → Result CodecError Bytes
marshalled_plan none = err json_failed
marshalled_plan (some bytes) = capped max_plan_bytes bytes (refused invalid_plan)

unfoldable pub encode_plan : Json → FrozenPlan → Result CodecError Bytes
unfolding stored_plan
encode_plan json p =
    if not (plan_valid p)
    then err (refused invalid_plan)
    else marshalled_plan (json.marshal_plan (stored_plan p))

module _ (env : Env) where
  abbrev pub with_message :
      Result MessageError Message
      → (Message → Result CodecError (List BranchInput))
      → Result CodecError (List BranchInput)
  with_message (err e) k = err (content e)
  with_message (ok m) k = k m

  -- The loop over the stored branches.
  unfoldable pub read_branches : List StoredBranch → Result CodecError (List BranchInput)
  read_branches [] = ok []
  read_branches (b ∷ bs) =
      let rest = read_branches bs in
      with_message (new env b.message) (λ m. rest >>= λ more. ok (
        record {
          id = b.id;
          physical_topic = b.physical_topic;
          route_revision = b.revision;
          message = m;
          wire = b.wire;
        }
        ∷ more))

  abbrev pub input_of : StoredPlan → Bytes → List BranchInput → PlanInput
  input_of s hash branches = record {
    owner = s.owner;
    scope = s.scope;
    operation_id = s.operation;
    idempotency_key = s.key;
    input_hash = hash;
    branches = branches;
  }

  abbrev pub checked_plan :
      Bytes → Result TransactionError FrozenPlan → Result CodecError FrozenPlan
  checked_plan digest (err e) = err (refused e)
  checked_plan digest (ok p) =
      if not (bytes_eq digest (hex p.digest)) then err (refused invalid_plan) else ok p

  -- What `DecodePlan` makes of the decoded value.
  unfoldable pub read_plan : StoredPlan → Result CodecError FrozenPlan
  unfolding read_digest read_branches
  read_plan s = do
    reject_if (not (s.version == codec_version)) (refused invalid_plan)
    hash ← read_digest s.input_hash
    branches ← read_branches s.branches
    checked_plan s.digest (new_plan env (input_of s hash branches))

  unfoldable pub decode_plan : Json → Bytes → Result CodecError FrozenPlan
  unfolding read_plan
  decode_plan json bytes =
      if length bytes == 0 || ltb max_plan_bytes (length bytes)
      then err (refused invalid_plan)
      else decoded (json.decode_plan bytes) read_plan
