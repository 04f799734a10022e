-- ===== src/Message/Fingerprint.antt =====
-- message/message.go: the bytes that are hashed determine the input, so that two messages share a
-- fingerprint only by a collision of the hash function.
use reliable_messaging.Base.{◌<◌, ◌≢◌, ◌≡◌, refl, arith, length, All, append-cancel, ok}
use reliable_messaging.Base.Bytes.{u64_mod}
use reliable_messaging.Base.Framing.{Short, length_prefixed-injective}
use reliable_messaging.Env.{Env}
use reliable_messaging.Message.{
  Input, Message, hashed_values, fingerprint_domain, preimage, fingerprint_of, new,
}
use reliable_messaging.Message.Validity.{IsWellFormed, new-eq-ok_iff}

preimage-injective :
    (a b : Input)
    → All Short (hashed_values a)
    → All Short (hashed_values b)
    → preimage a ≡ preimage b
    → a ≡ b
unfolding preimage
preimage-injective a b ha hb e =
    let tails = append-cancel fingerprint_domain fingerprint_domain _ _ refl e in
    cc (length_prefixed-injective (hashed_values a) (hashed_values b) refl ha hb tails.1)

-- The limits of the fields keep every length within eight bytes; the payload has no limit.
IsWellFormed-Short :
    (env : Env) (m : Input)
    → IsWellFormed env m
    → length m.payload < u64_mod
    → All Short (hashed_values m)
IsWellFormed-Short env m w p = omega arith

-- Two accepted messages of different content, with payloads shorter than 2^64 bytes, share a
-- fingerprint only if their hashed bytes are a collision of the hash function.
pub new-fingerprint_collision :
    (env : Env) (a b : Input) (x y : Message)
    → new env a ≡ ok x
    → new env b ≡ ok y
    → length a.payload < u64_mod
    → length b.payload < u64_mod
    → a ≢ b
    → x.fingerprint ≡ y.fingerprint
    → (preimage a ≢ preimage b) × (env.sha256 (preimage a) ≡ env.sha256 (preimage b))
unfolding fingerprint_of
new-fingerprint_collision env a b x y ha hb pa pb ne e =
    let (wa, xa) = (new-eq-ok_iff env a x).0 ha in
    let (wb, yb) = (new-eq-ok_iff env b y).0 hb in
    (
      λ same. ne (
          preimage-injective a b (IsWellFormed-Short env a wa pa) (IsWellFormed-Short env b wb pb)
            same),
      cc,
    )
