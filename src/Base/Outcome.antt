-- ===== src/Base/Outcome.antt =====
-- How a Go call ends: it returns a value, it returns an error, or it panics. The panics that the
-- program tells apart are the out-of-gas ones of the gas meter, which sub-message dispatch recovers.
use Prim.Native.Nat.{ℕ}
use Prim.Native.String.{String}
use mathlib.Core.Bool.{Bool, true, false}
use mathlib.Core.Path.{◌≡◌, refl, ap}
use mathlib.Core.Logic.{◌⊎◌, inl, inr}

-- Go errors as the code builds them: a registered error is its codespace and code, `Wrap` adds a
-- text or the text of a cause. `flavoured` is types.WasmVMFlavouredError, `deterministic` is
-- types.DeterministicError, `system` one of the error types of wasmvm/types/systemerror.go,
-- `redacted` the error that redactError makes of a codespace and a code, and `external` an error
-- of code that is not modelled.
pub data Error : Type 0 where
  registered : String → ℕ → Error
  wrap : Error → String → Error
  wrap_cause : Error → Error → Error
  flavoured : Error → Error
  deterministic : Error → Error
  system : ℕ → Error
  redacted : String → ℕ → Error
  external : ℕ → Error

-- storetypes.ErrorOutOfGas, storetypes.ErrorGasOverflow, and any other value that is panicked with
pub data Panic : Type 0 where
  out_of_gas gas_overflow : Panic
  other : String → Panic

pub data Outcome {ℓ} (A : Type ℓ) : Type ℓ where
  ok : A → Outcome A
  err : Error → Outcome A
  panic : Panic → Outcome A

abbrev pub is_ok {ℓ} : {A : Type ℓ} → Outcome A → Bool
is_ok (ok a) = true
is_ok (err e) = false
is_ok (panic p) = false

-- Code over a state that survives errors and panics: what was written before stays written.
abbrev pub Exec : Type 0 → Type 0 → Type 0
Exec S A = S → Outcome A × S

module _ {S A : Type 0} where
  abbrev pub pure : A → Exec S A
  pure a s = (ok a, s)

  abbrev pub fail : Error → Exec S A
  fail e s = (err e, s)

  abbrev pub throw : Panic → Exec S A
  throw p s = (panic p, s)

  abbrev pub gets : (S → A) → Exec S A
  gets f s = (ok (f s), s)

  abbrev pub lift : Outcome A → Exec S A
  lift r s = (r, s)

module _ {S A B : Type 0} where
  abbrev pub continue : Outcome A → (A → Exec S B) → Exec S B
  continue (ok a) f s = f a s
  continue (err e) f s = (err e, s)
  continue (panic p) f s = (panic p, s)

infixl 5 ◌>>=◌ ◌>>◌
abbrev pub ◌>>=◌ : {S A B : Type 0} → Exec S A → (A → Exec S B) → Exec S B
◌>>=◌ m f s = continue (m s).0 f (m s).1

abbrev pub ◌>>◌ : {S A B : Type 0} → Exec S A → Exec S B → Exec S B
m >> k = m >>= λ _. k

-- what follows an error
abbrev pub rescue : {S A : Type 0} → Outcome A → (Error → Exec S A) → Exec S A
rescue (ok a) f s = (ok a, s)
rescue (err e) f s = f e s
rescue (panic p) f s = (panic p, s)

abbrev pub modify : {S : Type 0} → (S → S) → Exec S (Unit {0})
modify f s = (ok tt, f s)

-- Go's `if c { return ..., err }`
abbrev pub fail_if : {S : Type 0} → Bool → Error → Exec S (Unit {0})
fail_if true e s = (err e, s)
fail_if false e s = (ok tt, s)

abbrev value_or {ℓ} : {A : Type ℓ} → A → Outcome A → A
value_or a (ok b) = b
value_or a (err e) = a
value_or a (panic p) = a

pub ok_inj {ℓ} : {A : Type ℓ} (a b : A) → ok a ≡ ok b → a ≡ b
ok_inj a b e = ap (value_or a) e

-- to split on how a call ended and keep the equation
pub Outcome-cases {ℓ} :
    {A : Type ℓ} (r : Outcome A)
    → ((a : A) × (r ≡ ok a)) ⊎ ((e : Error) × (r ≡ err e)) ⊎ ((p : Panic) × (r ≡ panic p))
Outcome-cases (ok a) = inl (a, refl)
Outcome-cases (err e) = inr (inl (e, refl))
Outcome-cases (panic p) = inr (inr (p, refl))
