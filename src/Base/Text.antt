-- ===== src/Base/Text.antt =====
-- Numbers and bytes as text: `strconv.FormatUint` and `strconv.ParseUint` at base 10 and 64 bits,
-- and `hex.EncodeToString`.
use Prim.Native.Nat.{ℕ, zero, suc, ◌+◌, ◌-◌, ◌*◌, ◌/◌, ◌%◌, ◌^◌, ◌<◌, ◌≤◌}
use mathlib.Core.Path.{◌≡◌, refl, ap, ◌∙◌}
use mathlib.Core.Bool.{false, ◌&&◌}
use mathlib.Core.List.{[], ◌∷◌}
use mathlib.Core.Option.{Option, none, some}
use native.Mathlib.Omega.{arith}
use native.Mathlib.Decide.{dec_lt}
use native.Mathlib.Nat.{pow-suc}
use reliable_messaging.Base.Tests.{ltb, leb, if◌then◌else◌}
use reliable_messaging.Base.Lists.{is_empty}
use reliable_messaging.Base.Bytes.{Bytes, u64_mod}

-- The digits of a number in front of `rest`, the last one first; twenty rounds serve 64 bits.
unfoldable pub digits : ℕ → ℕ → Bytes → Bytes
digits zero n rest = rest
digits (suc fuel) n rest =
    let more = digits fuel (n / 10) ((n % 10 + b'0') ∷ rest) in
    if ltb n 10 then (n + b'0') ∷ rest else more

unfoldable pub format_uint : ℕ → Bytes
unfolding digits
format_uint n = digits 20 n []

-- Each byte is a digit, and the number stays below 2^64.
unfoldable pub parse_from : ℕ → Bytes → Option ℕ
parse_from n [] = some n
parse_from n (c ∷ cs) =
    let more = parse_from (n * 10 + (c - b'0')) cs in
    if leb b'0' c && leb c b'9' && ltb (n * 10 + (c - b'0')) u64_mod then more else none

unfoldable pub parse_uint : Bytes → Option ℕ
unfolding parse_from
parse_uint cs = if is_empty cs then none else parse_from 0 cs

unfoldable pub hex_digit : ℕ → ℕ
hex_digit n = if ltb n 10 then n + b'0' else n - 10 + b'a'

unfoldable pub hex : Bytes → Bytes
unfolding hex_digit
hex [] = []
hex (b ∷ bs) = hex_digit (b / 16) ∷ hex_digit (b % 16) ∷ hex bs

parse_from-digit :
    (m d : ℕ) (rest : Bytes)
    → d < 10
    → m * 10 + d < u64_mod
    → parse_from m ((d + b'0') ∷ rest) ≡ parse_from (m * 10 + d) rest
unfolding parse_from
parse_from-digit m d rest h k = let e : d + b'0' - b'0' ≡ d = omega arith in rw e (ground arith)

digits-small : (fuel n : ℕ) (rest : Bytes) → n < 10 → digits (suc fuel) n rest ≡ (n + b'0') ∷ rest
unfolding digits
digits-small fuel n rest h = ground arith

digits-big :
    (fuel n : ℕ) (rest : Bytes)
    → 10 ≤ n
    → digits (suc fuel) n rest ≡ digits fuel (n / 10) ((n % 10 + b'0') ∷ rest)
unfolding digits
digits-big fuel n rest h = ground arith

parse_from-digits :
    (fuel n : ℕ) (rest : Bytes)
    → n < 10 ^ fuel
    → n < u64_mod
    → parse_from 0 (digits fuel n rest) ≡ parse_from n rest
parse_from-digits zero n rest h k = let e : n ≡ 0 = omega arith in rw e (unfold digits in refl)
parse_from-digits (suc fuel) n rest h k = elim (dec_lt n 10) [
  | yes small ↦
      let e : 0 * 10 + n ≡ n = omega arith in
      rw (digits-small fuel n rest small)
        (parse_from-digit 0 n rest small (omega arith) ∙ ap (λ m. parse_from m rest) e)
  | no big ↦
      let e : n / 10 * 10 + n % 10 ≡ n = omega arith in
      rw (digits-big fuel n rest (omega arith)) (
        parse_from-digits fuel (n / 10) ((n % 10 + b'0') ∷ rest) (omega (arith, pow-suc 10 fuel))
          (omega arith)
        ∙ parse_from-digit (n / 10) (n % 10) rest (omega arith) (omega arith)
        ∙ ap (λ m. parse_from m rest) e)
]

digits-present : (fuel n d : ℕ) (rest : Bytes) → is_empty (digits fuel n (d ∷ rest)) ≡ false
unfolding digits
digits-present zero n d rest = refl
digits-present (suc fuel) n d rest =
    ground (arith, digits-present fuel (n / 10) (n % 10 + b'0') (d ∷ rest))

format_uint-present : (n : ℕ) → is_empty (format_uint n) ≡ false
unfolding format_uint
format_uint-present n = ground (arith, digits-present 19 (n / 10) (n % 10 + b'0') [])

parse-format : (n : ℕ) → n < u64_mod → parse_from 0 (format_uint n) ≡ some n
unfolding format_uint parse_from
parse-format n h = parse_from-digits 20 n [] (omega arith) h

-- A 64-bit number is read back from its text.
pub parse_uint-format_uint : (n : ℕ) → n < u64_mod → parse_uint (format_uint n) ≡ some n
unfolding parse_uint
parse_uint-format_uint n h = rw (format_uint-present n) (parse-format n h)
