-- ===== src/Prelude/Outcome.antt =====
-- What a call of the program ends in, and the monad of calls that change a state.

use Prim.Native.Nat.{ℕ}
use Prim.Native.String.{String}

-- A Go error: a plain message, an `*io.Error` with its HTTP status, the two sentinel errors, or
-- an error wrapped by `errors.Wrap`.
pub data Error : Type 0 where
  plain : String → Error
  request_error : String → ℕ → Error
  token_not_found no_mapping : Error
  wrap : String → Error → Error

-- A run-time panic: a nil pointer dereferenced, a write to a nil map, an index out of
-- range, a type assertion that fails, a WriteHeader of a code that is no HTTP status, a stack
-- that overflows.
pub data Panic : Type 0 where
  nil_pointer nil_map index_out_of_range type_assertion status_code stack_overflow : Panic

pub data Outcome {ℓ} (A : Type ℓ) : Type ℓ where
  ok : A → Outcome A
  err : Error → Outcome A
  panic : Panic → Outcome A

abbrev pub and_then {ℓ κ} : {A : Type ℓ} {B : Type κ} → Outcome A → (A → Outcome B) → Outcome B
and_then (ok a) f = f a
and_then (err e) f = err e
and_then (panic p) f = panic p

-- A call keeps what it did to the state before it failed.
abbrev pub Exec {ℓ} : Type ℓ → Type ℓ → Type ℓ
Exec S A = S → Outcome A × S

abbrev pub after_call {ℓ} : {S A B : Type ℓ} → Outcome A × S → (A → Exec S B) → Outcome B × S
after_call (ok a, s) f = f a s
after_call (err e, s) f = (err e, s)
after_call (panic p, s) f = (panic p, s)

infixl 5 ◌>>=◌ ◌>>◌
abbrev pub ◌>>=◌ {ℓ} : {S A B : Type ℓ} → Exec S A → (A → Exec S B) → Exec S B
◌>>=◌ m f s = after_call (m s) f

abbrev pub ◌>>◌ {ℓ} : {S A B : Type ℓ} → Exec S A → Exec S B → Exec S B
m >> k = m >>= λ _. k

abbrev pub pure {ℓ} : {S A : Type ℓ} → A → Exec S A
pure a s = (ok a, s)

abbrev pub lift {ℓ} : {S A : Type ℓ} → Outcome A → Exec S A
lift r s = (r, s)

-- errors.Wrap on the error of a call, if it has one.
abbrev pub wrap_error {ℓ} : {A : Type ℓ} → String → Outcome A → Outcome A
wrap_error message (ok a) = ok a
wrap_error message (err e) = err (wrap message e)
wrap_error message (panic p) = panic p

abbrev pub wrapping {ℓ} : {S A : Type ℓ} → String → Exec S A → Exec S A
wrapping message m s = let r = m s in (wrap_error message r.0, r.1)
