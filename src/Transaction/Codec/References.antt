-- ===== src/Transaction/Codec/References.antt =====
-- transaction/reference_codec.go: a stored reference is read back as it was.
use reliable_messaging.Base.{
  ◌≤◌, true, false, ◌||◌, [], ◌∷◌, some, ◌≡◌, arith, Option-cases, inl, inr, length, ltb, ◌==◌, ok,
}
use reliable_messaging.Base.Bytes.{Bytes}
use reliable_messaging.Base.Hex.{hex-valid_utf8}
use reliable_messaging.Transaction.Plan.{required}
use reliable_messaging.Transaction.Plan.Checks.{required-All}
use reliable_messaging.Transaction.Evidence.{Reference, ref_valid}
use reliable_messaging.Transaction.Codec.{
  Json, stored_reference, read_reference, encode_reference, decode_reference,
}
use reliable_messaging.Transaction.Codec.Faithful.{
  IsFaithful, IsDigest, AreTexts, reference_texts, read_digest-hex,
}

pub record HasDigests (r : Reference) : Type 0 where
  pub plan_digest : IsDigest r.plan_digest
  pub wire_digest : IsDigest r.wire_hash
  pub message_digest : IsDigest r.message_fingerprint

ref_valid-texts :
    (r : Reference)
    → HasDigests r
    → ref_valid r ≡ true
    → AreTexts (reference_texts (stored_reference r))
unfolding ref_valid
ref_valid-texts r d h =
    let texts : required (
          r.owner ∷ r.scope ∷ r.operation_id ∷ r.branch_id ∷ r.message_id ∷ r.logical_topic
          ∷ r.physical_topic ∷ r.route_revision ∷ r.writer_epoch ∷ [])
        ≡ true =
      ground arith in
    let a = required-All _ texts in
    search (hex-valid_utf8, a, d.plan_digest.bytes, d.wire_digest.bytes, d.message_digest.bytes)

read_reference-stored :
    (r : Reference) → HasDigests r → ref_valid r ≡ true → read_reference (stored_reference r) ≡ ok r
unfolding read_reference
read_reference-stored r d h = rw (
  read_digest-hex r.plan_digest d.plan_digest,
  read_digest-hex r.wire_hash d.wire_digest,
  read_digest-hex r.message_fingerprint d.message_digest,
  h,
)

encode_reference-parts :
    (json : Json) (r : Reference) (bytes : Bytes)
    → encode_reference json r ≡ ok bytes
    → (ref_valid r ≡ true)
      × (json.marshal_reference (stored_reference r) ≡ some bytes)
      × (length bytes ≤ 8192)
unfolding encode_reference
encode_reference-parts json r bytes h =
    elim (Option-cases (json.marshal_reference (stored_reference r))) [
      | inl gone ↦ absurd (ground (arith, gone))
      | inr (made, e) ↦ ground (arith, e)
    ]

-- If encoding/json is faithful, `DecodeReference` returns exactly the reference that
-- `EncodeReference` wrote, for any reference whose digests are arrays of 32 bytes.
pub decode_reference-encode_reference :
    (json : Json) (r : Reference) (bytes : Bytes)
    → IsFaithful json
    → HasDigests r
    → encode_reference json r ≡ ok bytes
    → decode_reference json bytes ≡ ok r
unfolding decode_reference
decode_reference-encode_reference json r bytes faithful d h =
    let (good, made, small) = encode_reference-parts json r bytes h in
    let (present, back) =
      faithful.reference_trip (stored_reference r) bytes (ref_valid-texts r d good) made in
    let nonempty : (length bytes == 0 || ltb 8192 (length bytes)) ≡ false = ground arith in
    rw (nonempty, back) (read_reference-stored r d good)
