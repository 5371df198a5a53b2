-- ===== src/Prelude/Throws.antt =====
-- What a call of the source comes to: the value that it returns or the error that it throws.
use mathlib.Core.Path.{◌≡◌, refl}
use mathlib.Core.Bool.{Bool, true, false}

pub data Result {ℓ} (E A : Type ℓ) : Type ℓ where
  err : E → Result E A
  ok : A → Result E A

-- `if (!condition) throw new Error(thrown)`
abbrev pub guard : {E : Type 0} → Bool → E → Result E (Unit {0})
guard false thrown = err thrown
guard true thrown = ok tt

infixl 5 ◌>>=◌
abbrev pub ◌>>=◌ {κ} : {E B C : Type κ} → Result E B → (B → Result E C) → Result E C
err thrown >>= rest = err thrown
ok value >>= rest = rest value

infixl 5 ◌>>◌
abbrev pub ◌>>◌ {κ} : {E B C : Type κ} → Result E B → Result E C → Result E C
call >> rest = call >>= λ returned. rest

pub ok_injective {κ} : {E C : Type κ} {x y : C} → ◌≡◌ {A = Result E C} (ok x) (ok y) → x ≡ y
ok_injective same = cc

pub >>=-eq-ok {κ} :
    {E B C : Type κ} (call : Result E B) (rest : B → Result E C) {z : C}
    → (call >>= rest) ≡ ok z
    → (y : B) × (call ≡ ok y) × (rest y ≡ ok z)
>>=-eq-ok (err thrown) rest returns = cc
>>=-eq-ok (ok value) rest returns = (value, refl, returns)
