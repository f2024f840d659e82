-- ===== src/Common/Results.antt =====
-- Go's pair of a value and an error, as a sum.
use mathlib.Core.Option.{Option, none, some}
use mathlib.Core.Logic.{◌⊎◌, inl, inr}
use mathlib.Core.Bool.{Bool, true, false}
use mathlib.Core.Path.{◌≡◌, refl}

pub data Result {ℓ κ} (Failure : Type ℓ) (Value : Type κ) : Type (ℓ ⊔ κ) where
  err : Failure → Result Failure Value
  ok : Value → Result Failure Value

-- The rest of a function behind `if err != nil { return err }`.
infixl 5 ◌>>=◌
abbrev pub ◌>>=◌ {ℓ κ ι} :
    {Failure : Type ℓ} {Value : Type κ} {Next : Type ι}
    → Result Failure Value
    → (Value → Result Failure Next)
    → Result Failure Next
outcome >>= rest = elim outcome [ err failure ↦ err failure | ok value ↦ rest value ]

infixl 5 ◌>>◌
abbrev pub ◌>>◌ {ℓ κ} :
    {Failure : Type ℓ} {Next : Type κ}
    → Result Failure (Unit {0})
    → Result Failure Next
    → Result Failure Next
test >> rest = elim test [ err failure ↦ err failure | ok _ ↦ rest ]

-- `if test { return error }`
abbrev pub refuse {ℓ} : {E : Type ℓ} → Bool → E → Result E (Unit {0})
refuse true e = err e
refuse false e = ok tt

abbrev pub require {ℓ κ} : {E : Type ℓ} {A : Type κ} → Option A → E → Result E A
require none e = err e
require (some a) e = ok a

-- What a passed guard tells.
pub refuse->>-eq-ok {ℓ κ} :
    {E : Type ℓ} {B : Type κ} (test : Bool) (e : E) (m : Result E B) {b : B}
    → (refuse test e >> m) ≡ ok b
    → (test ≡ false) × (m ≡ ok b)
refuse->>-eq-ok true e m h = cc
refuse->>-eq-ok false e m h = (refl, h)

-- A step that went on to a value had a value itself.
pub >>=-eq-ok {ℓ κ ι} :
    {Failure : Type ℓ} {Value : Type κ} {Next : Type ι} (outcome : Result Failure Value)
    (rest : Value → Result Failure Next) {last : Next}
    → (outcome >>= rest) ≡ ok last
    → (value : Value) × (outcome ≡ ok value) × (rest value ≡ ok last)
>>=-eq-ok (err failure) rest done = cc
>>=-eq-ok (ok value) rest done = (value, refl, done)

pub refuse-eq-ok {ℓ} : {E : Type ℓ} (test : Bool) (e : E) → refuse test e ≡ ok tt → test ≡ false
refuse-eq-ok true e h = cc
refuse-eq-ok false e h = refl

pub Result-cases {ℓ κ} :
    {E : Type ℓ} {A : Type κ} (m : Result E A) → ((a : A) × (m ≡ ok a)) ⊎ ((e : E) × (m ≡ err e))
Result-cases (ok a) = inl (a, refl)
Result-cases (err e) = inr (e, refl)
