-- ===== src/Base/Result.antt =====
-- A service call's result: a value or one of the HTTP exceptions that the services throw.
use Prim.Native.String.{String}
use mathlib.Core.Path.{◌≡◌, refl}
use mathlib.Core.Logic.{◌⊎◌, inl, inr}
use mathlib.Core.Bool.{Bool, true, false}

-- The exception classes of @nestjs/common with the message that the source gives, and `database` for
-- what the database's client throws.
pub data Error : Type 0 where
  forbidden not_found conflict bad_request bad_gateway unavailable unauthorized : String → Error
  database internal : String → Error

-- What a call throws, or what it returns.
pub data Result {ℓ} (Value : Type ℓ) : Type ℓ where
  err : (thrown : Error) → Result Value
  ok : (value : Value) → Result Value

pub Result-cases {ℓ} :
    {A : Type ℓ} (m : Result A) → ((a : A) × (m ≡ ok a)) ⊎ ((e : Error) × (m ≡ err e))
Result-cases (err thrown) = inr (thrown, refl)
Result-cases (ok value) = inl (value, refl)

-- `if (c) throw e;`
abbrev pub throw_if : Bool → Error → Result (Unit {0})
throw_if false thrown = ok tt
throw_if true thrown = err thrown

-- The statements after a call run where it returned.
infixl 5 ◌>>◌ ◌>>=◌
abbrev pub ◌>>◌ {ℓ} :
    {Value : Type ℓ} (check : Result (Unit {0})) (rest : Result Value) → Result Value
err thrown >> rest = err thrown
ok _ >> rest = rest

abbrev pub ◌>>=◌ {ℓ κ} :
    {Value : Type ℓ} {Next : Type κ} (call : Result Value) (rest : Value → Result Next)
    → Result Next
err thrown >>= rest = err thrown
ok value >>= rest = rest value
