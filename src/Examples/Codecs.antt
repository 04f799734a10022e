-- ===== src/Examples/Codecs.antt =====
-- transaction/codec.go and transaction/reference_codec.go, and their theorems, over a faithful
-- encoding.
use reliable_messaging.Base.{true, [], some, ◌≡◌, refl, All, ok, err, Result, arith}
use reliable_messaging.Base.Bytes.{valid_utf8, Bytes}
use reliable_messaging.Base.Text.{hex}
use reliable_messaging.Message.{preimage, fingerprint_of}
use reliable_messaging.Transaction.Plan.{plan_valid, required, plan_preimage, digest_of, new_plan}
use reliable_messaging.Transaction.Evidence.{ref_valid}
use reliable_messaging.Transaction.Codec.{
  encode_reference, decode_reference, encode_plan, decode_plan, StoredPlan,
}
use reliable_messaging.Transaction.Codec.Faithful.{IsDigest}
use reliable_messaging.Transaction.Codec.References.{HasDigests, decode_reference-encode_reference}
use reliable_messaging.Transaction.Codec.Plans.{IsFrozen, decode_plan-encode_plan}
use reliable_messaging.Transaction.Codec.Decoded.{decode_plan_sound}
use reliable_messaging.Examples.Data.{env, plan, plan_input}
use reliable_messaging.Examples.Messages.{new-message}
use reliable_messaging.Examples.Plans.{new_plan-plan, half_message}
use reliable_messaging.Examples.Packing.{pack, packing, packing-IsFaithful}

abbrev pub bytes_of : {E : Type 0} → Result E Bytes → Bytes
bytes_of (ok bs) = bs
bytes_of (err e) = []

abbrev pub half_bytes : Bytes
half_bytes = bytes_of (encode_reference packing half_message)

encodes : encode_reference packing half_message ≡ ok half_bytes
unfolding encode_reference ref_valid required valid_utf8 pack hex digest_of fingerprint_of
encodes = refl

half_message-HasDigests : HasDigests half_message
unfolding digest_of plan_preimage fingerprint_of preimage
half_message-HasDigests = record {
  plan_digest = record { sized = refl; bytes = omega arith };
  wire_digest = record { sized = refl; bytes = omega arith };
  message_digest = record { sized = refl; bytes = omega arith };
}

decode_reference-encode_reference_example : decode_reference packing half_bytes ≡ ok half_message
decode_reference-encode_reference_example =
    decode_reference-encode_reference packing half_message half_bytes packing-IsFaithful
      half_message-HasDigests encodes

abbrev pub plan_bytes : Bytes
plan_bytes = bytes_of (encode_plan packing plan)

encodes_plan : encode_plan packing plan ≡ ok plan_bytes
unfolding encode_plan plan_valid pack hex digest_of
encodes_plan = refl

frozen : All (IsFrozen env) plan_input.branches
frozen = (new-message, (new-message, tt))

input_hash-IsDigest : IsDigest plan_input.input_hash
input_hash-IsDigest = record { sized = refl; bytes = omega arith }

digest-IsDigest : IsDigest plan.digest
unfolding digest_of plan_preimage
digest-IsDigest = record { sized = refl; bytes = omega arith }

decodes_plan : decode_plan env packing plan_bytes ≡ ok plan
decodes_plan =
    decode_plan-encode_plan env plan new_plan-plan frozen input_hash-IsDigest digest-IsDigest
      packing plan_bytes packing-IsFaithful encodes_plan

decode_plan-encode_plan_example : decode_plan env packing plan_bytes ≡ ok plan
decode_plan-encode_plan_example =
    decode_plan-encode_plan env plan new_plan-plan frozen input_hash-IsDigest digest-IsDigest
      packing plan_bytes packing-IsFaithful encodes_plan

decode_plan_sound_example :
    (new_plan env plan.input ≡ ok plan)
    × All (IsFrozen env) plan.input.branches
    × ((s : StoredPlan) × (packing.decode_plan plan_bytes ≡ some (s, true))
        × (s.digest ≡ hex plan.digest))
decode_plan_sound_example = decode_plan_sound env packing plan_bytes plan decodes_plan
