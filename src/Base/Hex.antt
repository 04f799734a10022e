-- ===== src/Base/Hex.antt =====
-- `hex.DecodeString` reads back what `hex.EncodeToString` writes, which is ASCII text.
use reliable_messaging.Base.Tests.{leb, if◌then◌else◌}
use reliable_messaging.Base.Lists.{All}
use reliable_messaging.Base.Bytes.{Bytes, valid_utf8, utf8_from, start, utf8_step, utf8_first}
use reliable_messaging.Base.Text.{hex, hex_digit}
use Prim.Native.Nat.{ℕ, ◌+◌, ◌-◌, ◌*◌, ◌/◌, ◌%◌, ◌<◌}
use mathlib.Core.Path.{◌≡◌, refl, ap, ◌∙◌}
use mathlib.Core.Bool.{true, ◌&&◌}
use mathlib.Core.List.{[], ◌∷◌}
use mathlib.Core.Option.{Option, none, some}
use native.Mathlib.Omega.{arith}

unfoldable pub hex_value : ℕ → Option ℕ
hex_value c =
    if leb b'0' c && leb c b'9'
    then some (c - b'0')
    else if leb b'a' c && leb c b'f'
    then some (c - b'a' + 10)
    else if leb b'A' c && leb c b'F'
    then some (c - b'A' + 10)
    else none

abbrev pub add_byte : Option ℕ → Option ℕ → Option Bytes → Option Bytes
add_byte (some high) (some low) (some bs) = some ((high * 16 + low) ∷ bs)
add_byte (some high) (some low) none = none
add_byte (some high) none rest = none
add_byte none low rest = none

-- An odd length and any other character are errors.
unfoldable pub unhex : Bytes → Option Bytes
unfolding hex_value
unhex [] = some []
unhex (c ∷ []) = none
unhex (c ∷ d ∷ cs) = add_byte (hex_value c) (hex_value d) (unhex cs)

-- Every element is a byte.
abbrev pub AreBytes : Bytes → Type 0
AreBytes bs = All (λ b. b < 256) bs

hex_value-hex_digit : (n : ℕ) → n < 16 → hex_value (hex_digit n) ≡ some n
unfolding hex_value hex_digit
hex_value-hex_digit n h = ground arith

pub unhex-hex : (bs : Bytes) → AreBytes bs → unhex (hex bs) ≡ some bs
unfolding unhex hex
unhex-hex [] h = refl
unhex-hex (b ∷ bs) h =
    let e : b / 16 * 16 + b % 16 ≡ b = omega arith in
    rw (
      hex_value-hex_digit (b / 16) (omega (arith, h.0)),
      hex_value-hex_digit (b % 16) (omega arith),
      unhex-hex bs h.1,
      e,
    )

hex_digit-ascii : (n : ℕ) → n < 16 → hex_digit n < 0x80
unfolding hex_digit
hex_digit-ascii n h = ground arith

ascii-step : (c : ℕ) → c < 0x80 → utf8_step start c ≡ some start
unfolding utf8_step utf8_first
ascii-step c h = ground arith

ascii-from :
    (c : ℕ) (cs : Bytes) → c < 0x80 → utf8_from (some start) (c ∷ cs) ≡ utf8_from (some start) cs
unfolding utf8_from
ascii-from c cs h = ap (λ s. utf8_from s cs) (ascii-step c h)

hex-from : (bs : Bytes) → AreBytes bs → utf8_from (some start) (hex bs) ≡ true
unfolding hex
hex-from [] h = unfold utf8_from in refl
hex-from (b ∷ bs) h =
    ascii-from (hex_digit (b / 16)) _ (hex_digit-ascii (b / 16) (omega (arith, h.0)))
    ∙ ascii-from (hex_digit (b % 16)) _ (hex_digit-ascii (b % 16) (omega arith))
    ∙ hex-from bs h.1

pub hex-valid_utf8 : (bs : Bytes) → AreBytes bs → valid_utf8 (hex bs) ≡ true
unfolding valid_utf8
hex-valid_utf8 bs h = hex-from bs h
