-- ===== src/Examples/Data.antt =====
-- Concrete values: an environment, messages, a plan, and a table of stored messages.
use reliable_messaging.Base.{ℕ, ◌+◌, ◌%◌, Bool, false, [], ◌∷◌, none, some, refl, length, ◌==◌}
use reliable_messaging.Base.Bytes.{Bytes, literal}
use reliable_messaging.Base.Int.{ℤ, pos}
use reliable_messaging.Env.{Env, Sized}
use reliable_messaging.Message.{Input, Message, fingerprint_of}
use reliable_messaging.Outbox.{Claim}
use reliable_messaging.Transaction.Plan.{BranchInput, PlanInput, FrozenPlan, digest_of}
use reliable_messaging.Storage.Mysql.Rows.{Row, Table, answered, pending, publishing}
use reliable_messaging.Storage.Mysql.Claim.{ClaimIo}

-- A checksum of the bytes stands for the digest.
abbrev pub checksum : Bytes → ℕ
checksum [] = 7
checksum (b ∷ bs) = (b + checksum bs) % 251

abbrev pub thirty_two : ℕ → Bytes
thirty_two n =
    n ∷ 1 ∷ 0 ∷ 0 ∷ 0 ∷ 0 ∷ 0 ∷ 0 ∷ 0 ∷ 0 ∷ 0 ∷ 0 ∷ 0 ∷ 0 ∷ 0 ∷ 0 ∷ 0 ∷ 0 ∷ 0 ∷ 0 ∷ 0 ∷ 0 ∷ 0 ∷ 0
    ∷ 0 ∷ 0 ∷ 0 ∷ 0 ∷ 0 ∷ 0 ∷ 0 ∷ 0 ∷ []

abbrev pub env : Env
env = record {
  sha256 = λ bs. thirty_two (checksum bs);
  rfc3339 = λ bs. length bs == 20;
  trim_space = λ bs. bs;
}

pub env-Sized : Sized env
env-Sized bs = refl

abbrev pub order_placed : Input
order_placed = record {
  producer = literal "shop";
  id = literal "m1";
  destination = literal "orders";
  event_type = literal "placed";
  schema_version = literal "1";
  scope = literal "eu";
  content_type = literal "text/plain";
  occurred_at = literal "2024-01-02T03:04:05Z";
  payload = literal "3 apples";
}

-- Other content with the same checksum.
abbrev pub order_swapped : Input
order_swapped = record order_placed { payload = literal " 3apples" }

abbrev pub message : Message
message = record { input = order_placed; fingerprint = fingerprint_of env order_placed }

abbrev pub swapped : Message
swapped = record { input = order_swapped; fingerprint = fingerprint_of env order_swapped }

abbrev pub branch : BranchInput
branch = record {
  id = literal "b1";
  physical_topic = literal "orders-eu";
  route_revision = literal "r1";
  message = message;
  wire = literal "wire";
}

abbrev pub plan_input : PlanInput
plan_input = record {
  owner = literal "shop";
  scope = literal "eu";
  operation_id = literal "op1";
  idempotency_key = literal "key";
  input_hash = thirty_two 5;
  branches = branch ∷ record branch { id = literal "b2" } ∷ [];
}

abbrev pub plan : FrozenPlan
plan = record { input = plan_input; digest = digest_of env plan_input }

abbrev pub due_row : Row
due_row = record {
  id = 1;
  input = order_placed;
  fingerprint = fingerprint_of env order_placed;
  state = pending;
  next_attempt_at = 10;
  claim_token = none;
  lease_until = none;
  version = 0;
  attempt_count = 0;
  failure_count = 0;
  last_error_code = [];
  transport_confirmed_at = none;
  manual_replay_request_id = none;
  manual_replay_version = none;
  created_at = 5;
  updated_at = 5;
}

-- A row that a relay holds until time 200.
abbrev pub held_row : Row
held_row = record due_row {
  id = 2;
  state = publishing;
  next_attempt_at = 200;
  claim_token = some (literal "token");
  lease_until = some 200;
  version = 4;
  attempt_count = 2;
}

-- A row whose stored fingerprint is not that of its content.
abbrev pub corrupt_row : Row
corrupt_row = record due_row { id = 3; fingerprint = thirty_two 1 }

abbrev pub table : Table
table = record { rows = due_row ∷ held_row ∷ corrupt_row ∷ []; next_id = 4 }

abbrev pub held_claim : Claim
held_claim = record {
  record_id = literal "2";
  token = literal "token";
  version = 4;
  attempts = 2;
  failure_count = 0;
  lease_until = 200000;
  message = message;
}

abbrev pub io : ClaimIo
io = record {
  begin_reply = answered;
  clock_reply = answered;
  select_reply = answered;
  commit_reply = answered;
  update_reply = λ k. answered;
  written_at = λ k. 101 + k;
  entropy = λ k. some (thirty_two k);
}

abbrev pub unlocked : ℕ → Bool
unlocked id = false

-- One minute and one second, in nanoseconds.
abbrev pub minute : ℤ
minute = pos 60000000000

abbrev pub second : ℤ
second = pos 1000000000
