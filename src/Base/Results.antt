-- ===== src/Base/Results.antt =====
-- What a Go function returns with an `error`: a value, or the error.
use mathlib.Core.Path.{◌≡◌, refl}
use mathlib.Core.Bool.{Bool, true, false}

pub data Result {ε α} (E : Type ε) (A : Type α) : Type (ε ⊔ α) where
  ok : A → Result E A
  err : E → Result E A

-- `if c { return ..., e }`
abbrev pub reject_if {ε} : {E : Type ε} → Bool → E → Result E (Unit {0})
reject_if false e = ok tt
reject_if true e = err e

-- The rest of a function behind `if err != nil { return err }`.
infixl 5 ◌>>=◌
abbrev pub ◌>>=◌ {ε α β} :
    {E : Type ε} {A : Type α} {B : Type β} → Result E A → (A → Result E B) → Result E B
err failure >>= rest = err failure
ok value >>= rest = rest value

infixl 5 ◌>>◌
abbrev pub ◌>>◌ {ε β} : {E : Type ε} {B : Type β} → Result E (Unit {0}) → Result E B → Result E B
err failure >> rest = err failure
ok done >> rest = rest

-- A function that succeeds has passed its first test.
pub >>-eq-ok {ε β} :
    {E : Type ε} {B : Type β} (first : Result E (Unit {0})) (rest : Result E B) {result : B}
    → (first >> rest) ≡ ok result
    → (first ≡ ok tt) × (rest ≡ ok result)
>>-eq-ok (err failure) rest passed = cc
>>-eq-ok (ok done) rest passed = (refl, passed)

pub >>=-eq-ok {ε α β} :
    {E : Type ε} {A : Type α} {B : Type β} (first : Result E A) (rest : A → Result E B) {result : B}
    → (first >>= rest) ≡ ok result
    → (value : A) × (first ≡ ok value) × (rest value ≡ ok result)
>>=-eq-ok (err failure) rest passed = cc
>>=-eq-ok (ok value) rest passed = (value, refl, passed)
