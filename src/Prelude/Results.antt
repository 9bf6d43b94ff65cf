-- ===== src/Prelude/Results.antt =====
-- Fallible code: a value, or an error of the component's own type.
use mathlib.Core.Path.{◌≡◌, refl}
use mathlib.Core.Bool.{Bool, true, false}

pub data Result (E A : Type 0) : Type 0 where
  ok : A → Result E A
  err : E → Result E A

infixl 5 ◌>>=◌
abbrev pub ◌>>=◌ : {E A B : Type 0} → Result E A → (A → Result E B) → Result E B
ok a >>= f = f a
err e >>= f = err e

-- What holds of the value, if there is one.
abbrev pub OnOk : {E A : Type 0} → (A → Type 0) → Result E A → Type 0
OnOk P (ok a) = P a
OnOk P (err e) = Unit

-- A chain that succeeds has a first step that succeeds, and goes on from its value.
pub >>=-eq-ok :
    {E A B : Type 0} {final : B} (first : Result E A) (next : A → Result E B)
    → (first >>= next) ≡ ok final
    → (value : A) × (first ≡ ok value) × (next value ≡ ok final)
>>=-eq-ok (err e) next succeeds = cc
>>=-eq-ok (ok value) next succeeds = (value, refl, succeeds)

pub >>=-OnOk :
    {E A B : Type 0} (P : A → Type 0) (Q : B → Type 0) (m : Result E A) (f : A → Result E B)
    → OnOk P m
    → ((a : A) → P a → OnOk Q (f a))
    → OnOk Q (m >>= f)
>>=-OnOk P Q (ok a) f h k = k a h
>>=-OnOk P Q (err e) f h k = tt

abbrev pub is_ok : {E A : Type 0} → Result E A → Bool
is_ok (ok a) = true
is_ok (err e) = false
