-- ===== src/Message/Validity.antt =====
-- message/message.go: exactly which inputs `New` accepts, and what it returns for them.
use reliable_messaging.Base.{
  ℕ, ◌<◌, ◌≤◌, true, false, not, List, [], ◌∷◌, ◌≡◌, refl, ◌↔◌, inl, inr, arith, Bool-cases, length,
  is_empty, All, ok, reject_if, >>-eq-ok, is_empty-length, length-is_empty,
}
use reliable_messaging.Base.Bytes.{Bytes, valid_utf8}
use reliable_messaging.Env.{Env}
use reliable_messaging.Message.{
  Input, Message, Field, fields, bad_field, check_fields, new, fingerprint_of, invalid_occurred_at,
  payload_required,
}

-- A required field: UTF-8 text, not empty, of at most `limit` bytes.
pub record IsField (value : Bytes) (limit : ℕ) : Type 0 where
  pub present : 0 < length value
  pub bounded : length value ≤ limit
  pub utf8 : valid_utf8 value ≡ true

-- What a well-formed input is, field by field.
pub record IsWellFormed (env : Env) (m : Input) : Type 0 where
  pub producer_field : IsField m.producer 128
  pub id_field : IsField m.id 128
  pub destination_field : IsField m.destination 255
  pub event_type_field : IsField m.event_type 255
  pub schema_version_field : IsField m.schema_version 128
  pub scope_field : IsField m.scope 255
  pub content_type_field : IsField m.content_type 255
  pub occurred_at_field : IsField m.occurred_at 64
  pub timestamp : env.rfc3339 m.occurred_at ≡ true
  pub payload_present : 0 < length m.payload

bad_field-false : (v : Bytes) (n : ℕ) → bad_field v n ≡ false → IsField v n
bad_field-false [] n h = cc
bad_field-false (x ∷ v) n h = ground arith

IsField-bad_field : (v : Bytes) (n : ℕ) → IsField v n → bad_field v n ≡ false
IsField-bad_field [] n h = ground arith
IsField-bad_field (x ∷ v) n h = ground arith

abbrev Good : Field → Type 0
Good f = bad_field f.value f.limit ≡ false

check_fields-ok : (fs : List Field) → check_fields fs ≡ ok tt → All Good fs
unfolding check_fields
check_fields-ok [] h = tt
check_fields-ok (f ∷ fs) h = elim (Bool-cases (bad_field f.value f.limit)) [
  | inl bad ↦ absurd (cc (rw bad at h))
  | inr good ↦ (good, check_fields-ok fs (rw good at h))
]

All-check_fields : (fs : List Field) → All Good fs → check_fields fs ≡ ok tt
unfolding check_fields
All-check_fields [] h = refl
All-check_fields (f ∷ fs) h = rw h.0 (All-check_fields fs h.1)

abbrev Checks : Env → Input → Type 0
Checks env m =
    All Good (fields m) × (env.rfc3339 m.occurred_at ≡ true) × (is_empty m.payload ≡ false)

new-Checks :
    (env : Env) (m : Input) {r : Message}
    → new env m ≡ ok r
    → Checks env m × (r ≡ record { input = m; fingerprint = fingerprint_of env m })
unfolding new
new-Checks env m h =
    let (e, h₁) = >>-eq-ok (check_fields (fields m)) _ h in
    let (e₂, h₂) =
      >>-eq-ok (reject_if (not (env.rfc3339 m.occurred_at)) invalid_occurred_at) _ h₁ in
    let (e₃, h₃) = >>-eq-ok (reject_if (is_empty m.payload) payload_required) _ h₂ in
    ((check_fields-ok (fields m) e, ground arith, ground arith), ground arith)

Checks-new :
    (env : Env) (m : Input)
    → Checks env m
    → new env m ≡ ok (record { input = m; fingerprint = fingerprint_of env m })
unfolding new
Checks-new env m (good, time, payload) = rw (All-check_fields (fields m) good) (rw (time, payload))

Checks-IsWellFormed : (env : Env) (m : Input) → Checks env m → IsWellFormed env m
Checks-IsWellFormed env m c = search (bad_field-false, is_empty-length, c.0, c.1, c.2)

IsWellFormed-Checks : (env : Env) (m : Input) → IsWellFormed env m → Checks env m
IsWellFormed-Checks env m w = search (IsField-bad_field, length-is_empty, w)

-- `New` accepts exactly the well-formed inputs, and returns the input with its fingerprint.
pub new-eq-ok_iff :
    (env : Env) (m : Input) (r : Message)
    → (new env m ≡ ok r)
      ↔ (IsWellFormed env m × (r ≡ record { input = m; fingerprint = fingerprint_of env m }))
new-eq-ok_iff env m r = (
  λ h. let (c, e) = new-Checks env m h in (Checks-IsWellFormed env m c, e),
  λ h. rw h.1 (Checks-new env m (IsWellFormed-Checks env m h.0)),
)
