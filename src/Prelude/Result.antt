-- ===== src/Prelude/Result.antt =====
-- A call that returns a value or raises an exception with a message.
use Prim.Native.String.{String}
use mathlib.Core.Path.{◌≡◌, refl}
use mathlib.Core.Logic.{◌⊎◌, inl, inr}
use mathlib.Core.Bool.{Bool, true, false}
use mathlib.Core.Option.{Option, none, some}

pub data Result {ℓ} (A : Type ℓ) : Type ℓ where
  ok : A → Result A
  err : String → Result A

-- `if failed: raise ValueError(message)`
abbrev pub raise_if : Bool → String → Result (Unit {0})
raise_if true message = err message
raise_if false message = ok tt

-- The rest of a block, which an exception skips.
abbrev pub ◌>>=◌ {ℓ κ} : {A : Type ℓ} {B : Type κ} → Result A → (A → Result B) → Result B
err message >>= rest = err message
ok value >>= rest = rest value

-- The same after a statement that has no value.
abbrev pub ◌>>◌ {ℓ} : {B : Type ℓ} → Result (Unit {0}) → Result B → Result B
err message >> rest = err message
ok value >> rest = rest

infixl 5 ◌>>=◌ ◌>>◌
-- What a lookup found, or the exception that it raises.
abbrev pub or_raise {ℓ} : {A : Type ℓ} → Option A → String → Result A
or_raise found message = elim found [ some value ↦ ok value | none ↦ err message ]

-- A call has either returned or raised.
pub Result-cases {ℓ} :
    {A : Type ℓ} (call : Result A)
    → ((value : A) × (call ≡ ok value)) ⊎ ((message : String) × (call ≡ err message))
Result-cases (err message) = inr (message, refl)
Result-cases (ok value) = inl (value, refl)

pub ok_injective {ℓ} : {A : Type ℓ} {x y : A} → ok x ≡ ok y → x ≡ y
ok_injective same = cc
