-- ===== src/Transaction/Codec/Faithful.antt =====
-- What the codecs rely on of encoding/json: text of valid UTF-8, numbers and byte slices are read
-- back as they were written, and a value is never the empty text.
use reliable_messaging.Base.{◌<◌, true, List, [], ◌∷◌, some, ◌≡◌, All, length, ok}
use reliable_messaging.Base.Bytes.{Bytes, valid_utf8}
use reliable_messaging.Base.Text.{hex}
use reliable_messaging.Base.Hex.{AreBytes, unhex-hex}
use reliable_messaging.Message.{Input}
use reliable_messaging.Transaction.Codec.{
  StoredReference, StoredBranch, StoredPlan, Json, read_digest,
}

abbrev pub AreTexts : List Bytes → Type 0
AreTexts vs = All (λ v. valid_utf8 v ≡ true) vs

abbrev pub reference_texts : StoredReference → List Bytes
reference_texts s =
    s.owner ∷ s.scope ∷ s.operation ∷ s.branch ∷ s.message ∷ s.logical ∷ s.physical ∷ s.revision
    ∷ s.epoch ∷ s.plan ∷ s.wire ∷ s.fingerprint ∷ []

abbrev pub message_texts : Input → List Bytes
message_texts m =
    m.producer ∷ m.id ∷ m.destination ∷ m.event_type ∷ m.schema_version ∷ m.scope ∷ m.content_type
    ∷ m.occurred_at ∷ []

abbrev pub IsBranchText : StoredBranch → Type 0
IsBranchText b =
    AreTexts (b.id ∷ b.physical_topic ∷ b.revision ∷ []) × AreTexts (message_texts b.message)

abbrev pub IsPlanText : StoredPlan → Type 0
IsPlanText s =
    AreTexts (s.owner ∷ s.scope ∷ s.operation ∷ s.key ∷ s.input_hash ∷ s.digest ∷ [])
    × All IsBranchText s.branches

pub record IsFaithful (json : Json) : Type 0 where
  pub reference_trip :
      (s : StoredReference) (bytes : Bytes)
      → AreTexts (reference_texts s)
      → json.marshal_reference s ≡ some bytes
      → (0 < length bytes) × (json.decode_reference bytes ≡ some (s, true))
  pub plan_trip :
      (s : StoredPlan) (bytes : Bytes)
      → IsPlanText s
      → json.marshal_plan s ≡ some bytes
      → (0 < length bytes) × (json.decode_plan bytes ≡ some (s, true))

-- A `[32]byte`.
pub record IsDigest (v : Bytes) : Type 0 where
  pub sized : length v ≡ 32
  pub bytes : AreBytes v

pub read_digest-hex : (v : Bytes) → IsDigest v → read_digest (hex v) ≡ ok v
unfolding read_digest
read_digest-hex v d = rw (unhex-hex v d.bytes, d.sized)
