-- ===== src/Prelude/Outcomes.antt =====
-- How a call ends: with a value, with a C++ exception, or in undefined behaviour.
use mathlib.Core.Path.{◌≡◌, refl}
use mathlib.Core.Option.{Option, none, some}

pub data Outcome {ℓ} (A : Type ℓ) : Type ℓ where
  done : A → Outcome A
  thrown : Outcome A
  undefined : Outcome A

infixl 5 ◌>>=◌
abbrev pub ◌>>=◌ {ℓ κ} : {A : Type ℓ} {B : Type κ} → Outcome A → (A → Outcome B) → Outcome B
done a >>= f = f a
thrown >>= f = thrown
undefined >>= f = undefined

-- Reading through a null pointer or past an array's end.
abbrev pub or_undefined {ℓ} : {A : Type ℓ} → Option A → Outcome A
or_undefined none = undefined
or_undefined (some a) = done a

-- `.value()` of an empty `std::optional`.
abbrev pub or_throw {ℓ} : {A : Type ℓ} → Option A → Outcome A
or_throw none = thrown
or_throw (some a) = done a

pub >>=-eq-done {ℓ κ} :
    {A : Type ℓ} {B : Type κ} (m : Outcome A) (f : A → Outcome B) {b : B}
    → (m >>= f) ≡ done b
    → (a : A) × (m ≡ done a) × (f a ≡ done b)
>>=-eq-done (done a) f h = (a, refl, h)
>>=-eq-done thrown f h = cc
>>=-eq-done undefined f h = cc

pub >>=-done {ℓ} : {A : Type ℓ} (m : Outcome A) → (m >>= λ a. done a) ≡ m
>>=-done (done a) = refl
>>=-done thrown = refl
>>=-done undefined = refl

pub done-injective {ℓ} : {A : Type ℓ} {a b : A} → done a ≡ done b → a ≡ b
done-injective h = cc
