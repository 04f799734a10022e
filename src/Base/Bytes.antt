-- ===== src/Base/Bytes.antt =====
-- Go strings and byte slices: lists of bytes. Equality, UTF-8 validity (`utf8.ValidString`), the
-- bytes of a literal, and 64-bit big-endian numbers (`binary.BigEndian.PutUint64`).
use Prim.Native.Nat.{ℕ, ◌-◌, ◌/◌, ◌%◌, ◌^◌, ◌<◌}
use Prim.Native.Char.{code}
use Prim.Native.String.{String}
use mathlib.Core.Path.{◌≡◌, refl}
use mathlib.Core.Logic.{◌↔◌}
use mathlib.Core.Bool.{Bool, true, false, ◌&&◌}
use mathlib.Core.Option.{Option, none, some}
use mathlib.Core.List.{List, [], ◌∷◌}
use native.Mathlib.Omega.{arith}
use reliable_messaging.Base.Tests.{leb, ltb, ◌==◌, if◌then◌else◌}

abbrev pub Bytes : Type 0
Bytes = List ℕ

-- The bytes of an ASCII literal.
abbrev pub literal : String → Bytes
literal String.[] = []
literal (String.◌∷◌ c s) = code c ∷ literal s

unfoldable pub bytes_eq : Bytes → Bytes → Bool
bytes_eq [] [] = true
bytes_eq [] (y ∷ ys) = false
bytes_eq (x ∷ xs) [] = false
bytes_eq (x ∷ xs) (y ∷ ys) = x == y && bytes_eq xs ys

pub bytes_eq-eq : (xs ys : Bytes) → bytes_eq xs ys ≡ true → xs ≡ ys
unfolding bytes_eq
bytes_eq-eq [] [] h = refl
bytes_eq-eq [] (y ∷ ys) h = cc
bytes_eq-eq (x ∷ xs) [] h = cc
bytes_eq-eq (x ∷ xs) (y ∷ ys) h = ground (arith, bytes_eq-eq xs ys)

pub bytes_eq_refl : (xs : Bytes) → bytes_eq xs xs ≡ true
unfolding bytes_eq
bytes_eq_refl [] = refl
bytes_eq_refl (x ∷ xs) = ground (arith, bytes_eq_refl xs)

pub bytes_eq_iff : (xs ys : Bytes) → (bytes_eq xs ys ≡ true) ↔ (xs ≡ ys)
bytes_eq_iff xs ys = (bytes_eq-eq xs ys, λ e. rw e (bytes_eq_refl ys))

-- What the decoder expects next: a first byte, or `more` continuation bytes, the next one of
-- them between `lo` and `hi`.
pub data Utf8 : Type 0 where
  start : Utf8
  continue : (more lo hi : ℕ) → Utf8

unfoldable pub utf8_first : ℕ → Option Utf8
utf8_first b =
    if ltb b 0x80
    then some start
    else if ltb b 0xC2
    then none
    else if leb b 0xDF
    then some (continue 1 0x80 0xBF)
    else if b == 0xE0
    then some (continue 2 0xA0 0xBF)
    else if b == 0xED
    then some (continue 2 0x80 0x9F)
    else if leb b 0xEF
    then some (continue 2 0x80 0xBF)
    else if b == 0xF0
    then some (continue 3 0x90 0xBF)
    else if leb b 0xF3
    then some (continue 3 0x80 0xBF)
    else if b == 0xF4
    then some (continue 3 0x80 0x8F)
    else none

unfoldable pub utf8_step : Utf8 → ℕ → Option Utf8
unfolding utf8_first
utf8_step start b = utf8_first b
utf8_step (continue more lo hi) b =
    if leb lo b && leb b hi
    then some (if more == 1 then start else continue (more - 1) 0x80 0xBF)
    else none

abbrev utf8_done : Utf8 → Bool
utf8_done start = true
utf8_done (continue more lo hi) = false

unfoldable pub utf8_from : Option Utf8 → Bytes → Bool
unfolding utf8_step
utf8_from none bs = false
utf8_from (some s) [] = utf8_done s
utf8_from (some s) (b ∷ bs) = utf8_from (utf8_step s b) bs

-- `utf8.ValidString`
unfoldable pub valid_utf8 : Bytes → Bool
unfolding utf8_from
valid_utf8 bs = utf8_from (some start) bs

abbrev pub u64_mod : ℕ
u64_mod = 2 ^ 64

-- `binary.BigEndian.PutUint64`: the top byte first; a length is converted by `uint64(len(v))`.
unfoldable pub put_uint64 : ℕ → Bytes
put_uint64 n =
    n / 2 ^ 56 % 256
    ∷ n / 2 ^ 48 % 256
    ∷ n / 2 ^ 40 % 256
    ∷ n / 2 ^ 32 % 256
    ∷ n / 2 ^ 24 % 256
    ∷ n / 2 ^ 16 % 256
    ∷ n / 2 ^ 8 % 256
    ∷ n % 256
    ∷ []

-- The eight bytes determine a 64-bit number.
pub put_uint64-injective :
    (m n : ℕ) → m < u64_mod → n < u64_mod → put_uint64 m ≡ put_uint64 n → m ≡ n
unfolding put_uint64
put_uint64-injective m n hm hn e = ground arith
