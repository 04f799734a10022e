-- ===== src/Message.antt =====
-- message/message.go: immutable delivery intents. A Go string is a list of bytes. `New` checks the
-- eight identity fields in order, the timestamp and the payload, and fingerprints the content.
pub mod Fingerprint
pub mod Validity
use reliable_messaging.Base.{
  ℕ, Bool, true, false, not, ◌&&◌, ◌||◌, List, [], ◌∷◌, ◌++◌, ltb, if◌then◌else◌, length, is_empty,
  Result, ok, err, ◌>>=◌, ◌>>◌, reject_if,
}
use reliable_messaging.Base.Bytes.{Bytes, literal, valid_utf8, put_uint64}
use reliable_messaging.Base.Framing.{length_prefixed}
use reliable_messaging.Env.{Env}

pub record Input : Type 0 where
  pub producer : Bytes
  pub id : Bytes
  pub destination : Bytes
  pub event_type : Bytes
  pub schema_version : Bytes
  pub scope : Bytes
  pub content_type : Bytes
  pub occurred_at : Bytes
  pub payload : Bytes

pub record Message : Type 0 where
  pub input : Input
  pub fingerprint : Bytes

abbrev pub no_input : Input
no_input = record {
  producer = [];
  id = [];
  destination = [];
  event_type = [];
  schema_version = [];
  scope = [];
  content_type = [];
  occurred_at = [];
  payload = [];
}

-- `[32]byte{}`
abbrev pub no_digest : Bytes
no_digest =
    0 ∷ 0 ∷ 0 ∷ 0 ∷ 0 ∷ 0 ∷ 0 ∷ 0 ∷ 0 ∷ 0 ∷ 0 ∷ 0 ∷ 0 ∷ 0 ∷ 0 ∷ 0 ∷ 0 ∷ 0 ∷ 0 ∷ 0 ∷ 0 ∷ 0 ∷ 0 ∷ 0
    ∷ 0 ∷ 0 ∷ 0 ∷ 0 ∷ 0 ∷ 0 ∷ 0 ∷ 0 ∷ []

-- `Message{}`, which `New` returns beside an error
abbrev pub no_message : Message
no_message = record { input = no_input; fingerprint = no_digest }

pub data MessageError : Type 0 where
  invalid_field : Bytes → MessageError
  invalid_occurred_at : MessageError
  payload_required : MessageError

-- One row of the table of fields: its value is required UTF-8 of at most `limit` bytes.
abbrev pub bad_field : Bytes → ℕ → Bool
bad_field value limit = is_empty value || ltb limit (length value) || not (valid_utf8 value)

pub record Field : Type 0 where
  pub name : Bytes
  pub value : Bytes
  pub limit : ℕ

abbrev pub fields : Input → List Field
fields m =
    record { name = literal "producer"; value = m.producer; limit = 128 }
    ∷ record { name = literal "id"; value = m.id; limit = 128 }
    ∷ record { name = literal "destination"; value = m.destination; limit = 255 }
    ∷ record { name = literal "event_type"; value = m.event_type; limit = 255 }
    ∷ record { name = literal "schema_version"; value = m.schema_version; limit = 128 }
    ∷ record { name = literal "scope"; value = m.scope; limit = 255 }
    ∷ record { name = literal "content_type"; value = m.content_type; limit = 255 }
    ∷ record { name = literal "occurred_at"; value = m.occurred_at; limit = 64 }
    ∷ []

-- The loop over the fields: the first bad one is reported.
unfoldable pub check_fields : List Field → Result MessageError (Unit {0})
check_fields [] = ok tt
check_fields (f ∷ fs) =
    let rest = check_fields fs in
    if bad_field f.value f.limit then err (invalid_field f.name) else rest

abbrev pub hashed_values : Input → List Bytes
hashed_values m =
    m.producer ∷ m.id ∷ m.destination ∷ m.event_type ∷ m.schema_version ∷ m.scope ∷ m.content_type
    ∷ m.occurred_at ∷ m.payload ∷ []

abbrev pub fingerprint_domain : Bytes
fingerprint_domain = literal "rm-fingerprint-draft-v1" ++ 0 ∷ []

unfoldable pub preimage : Input → Bytes
preimage m = fingerprint_domain ++ length_prefixed (hashed_values m)

module _ (env : Env) where
  unfoldable pub fingerprint_of : Input → Bytes
  fingerprint_of m = env.sha256 (preimage m)

  unfoldable pub new : Input → Result MessageError Message
  unfolding check_fields fingerprint_of
  new m = do
    check_fields (fields m)
    reject_if (not (env.rfc3339 m.occurred_at)) invalid_occurred_at
    reject_if (is_empty m.payload) payload_required
    ok (record { input = m; fingerprint = fingerprint_of m })

-- `Message.Valid`: only the zero value has no producer
unfoldable pub is_valid : Message → Bool
is_valid m = not (is_empty m.input.producer)

-- What callers keep of `m, err := New(in)`: the zero message beside an error.
unfoldable pub message_of : Result MessageError Message → Message
message_of (ok m) = m
message_of (err e) = no_message
