-- ===== src/Base/Framing.antt =====
-- How the program writes values into a hash: each behind its length in eight bytes (`field` of
-- transaction/plan.go; message/message.go writes the same loop inline). The frame of a list of
-- values determines the list.
use mathlib.Core.List.{◌++◌, List, [], ◌∷◌}
use mathlib.Core.Path.{◌≡◌, refl}
use Prim.Native.Nat.{◌<◌}
use native.Mathlib.Omega.{arith}
use reliable_messaging.Base.Lists.{length, All, append-cancel}
use reliable_messaging.Base.Bytes.{Bytes, put_uint64, put_uint64-injective, u64_mod}

unfoldable pub length_prefixed : List Bytes → Bytes
length_prefixed [] = []
length_prefixed (v ∷ vs) = put_uint64 (length v) ++ (v ++ length_prefixed vs)

-- The value's length fits eight bytes.
abbrev pub Short : Bytes → Type 0
Short v = length v < u64_mod

pub length_prefixed-cons :
    (v w : Bytes) (vs ws : List Bytes)
    → Short v
    → Short w
    → length_prefixed (v ∷ vs) ≡ length_prefixed (w ∷ ws)
    → (v ≡ w) × (length_prefixed vs ≡ length_prefixed ws)
unfolding length_prefixed put_uint64
length_prefixed-cons v w vs ws hv hw e =
    let sizes = append-cancel (put_uint64 (length v)) (put_uint64 (length w)) _ _ refl e in
    append-cancel v w _ _ (put_uint64-injective (length v) (length w) hv hw sizes.0) sizes.1

pub length_prefixed-injective :
    (vs ws : List Bytes)
    → length vs ≡ length ws
    → All Short vs
    → All Short ws
    → length_prefixed vs ≡ length_prefixed ws
    → vs ≡ ws
length_prefixed-injective [] [] n hv hw e = refl
length_prefixed-injective [] (w ∷ ws) n hv hw e = absurd (omega arith)
length_prefixed-injective (v ∷ vs) [] n hv hw e = absurd (omega arith)
length_prefixed-injective (v ∷ vs) (w ∷ ws) n hv hw e =
    let (same, rest) = length_prefixed-cons v w vs ws hv.0 hw.0 e in
    cc (same, length_prefixed-injective vs ws (omega arith) hv.1 hw.1 rest)
