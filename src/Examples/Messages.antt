-- ===== src/Examples/Messages.antt =====
-- message/message.go and its theorems, on two messages with one checksum.
use reliable_messaging.Base.Framing.{length_prefixed}
use reliable_messaging.Base.{◌≡◌, ◌≢◌, refl, ok, err, arith, []}
use reliable_messaging.Base.Bytes.{put_uint64, valid_utf8, literal}
use reliable_messaging.Message.{invalid_field, new, preimage, fingerprint_of}
use reliable_messaging.Message.Validity.{IsWellFormed, new-eq-ok_iff}
use reliable_messaging.Message.Fingerprint.{new-fingerprint_collision}
use reliable_messaging.Examples.Data.{env, order_placed, order_swapped, message, swapped}

pub new-message : new env order_placed ≡ ok message
unfolding new valid_utf8
new-message = refl

new-swapped : new env order_swapped ≡ ok swapped
unfolding new valid_utf8
new-swapped = refl

-- Errors name the first bad field, whatever else is wrong.
new_without_scope :
    new env (record order_placed { scope = []; payload = [] })
    ≡ err (invalid_field (literal "scope"))
unfolding new valid_utf8
new_without_scope = refl

new-eq-ok_iff_example :
    IsWellFormed env order_placed
    × (message ≡ record { input = order_placed; fingerprint = fingerprint_of env order_placed })
new-eq-ok_iff_example = (new-eq-ok_iff env order_placed message).0 new-message

new-fingerprint_collision_example :
    (preimage order_placed ≢ preimage order_swapped)
    × (env.sha256 (preimage order_placed) ≡ env.sha256 (preimage order_swapped))
unfolding fingerprint_of preimage length_prefixed put_uint64
new-fingerprint_collision_example =
    new-fingerprint_collision env order_placed order_swapped message swapped new-message new-swapped
      (omega arith) (omega arith) (λ e. cc) refl
