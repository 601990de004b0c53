-- ===== src/Common/Fallible.antt =====
-- The result of a step that may fail, over any type of errors, and chains of such steps.
use mathlib.Core.Path.{◌≡◌, refl}
use mathlib.Core.Logic.{◌⊎◌, inl, inr}
use mathlib.Core.Option.{Option, none, some}

-- An error, or the value that the step yields: Go's `(value, error)`.
pub data Fallible {ℓ} (Fault : Type 0) (Value : Type ℓ) : Type ℓ where
  err : Fault → Fallible Fault Value
  ok : Value → Fallible Fault Value

-- `if err != nil { return …, err }`
infixl 5 ◌>>=◌
abbrev pub ◌>>=◌ {ℓ κ} :
    {Fault : Type 0} {Value : Type ℓ} {Next : Type κ}
    → Fallible Fault Value
    → (Value → Fallible Fault Next)
    → Fallible Fault Next
err fault >>= next = err fault
ok value >>= next = next value

-- `fmt.Errorf("…: %w", err)`
abbrev pub wrap {ℓ} :
    {Fault : Type 0} {Value : Type ℓ}
    → (Fault → Fault)
    → Fallible Fault Value
    → Fallible Fault Value
wrap label (err fault) = err (label fault)
wrap label (ok value) = ok value

abbrev pub or_fail {ℓ} :
    {Fault : Type 0} {Value : Type ℓ} → Option Value → Fault → Fallible Fault Value
or_fail (some value) fault = ok value
or_fail none fault = err fault

pub Result-cases {ℓ} :
    {Fault : Type 0} {Value : Type ℓ} (r : Fallible Fault Value)
    → ((v : Value) × (r ≡ ok v)) ⊎ ((x : Fault) × (r ≡ err x))
Result-cases (err fault) = inr (fault, refl)
Result-cases (ok value) = inl (value, refl)

-- A bind succeeds only through both of its steps.
pub >>=-eq-ok {ℓ κ} :
    {Fault : Type 0} {Value : Type ℓ} {Next : Type κ} (m : Fallible Fault Value)
    (next : Value → Fallible Fault Next) {out : Next}
    → (m >>= next) ≡ ok out
    → (v : Value) × (m ≡ ok v) × (next v ≡ ok out)
>>=-eq-ok (err fault) next h = absurd (cc)
>>=-eq-ok (ok value) next h = (value, refl, h)
