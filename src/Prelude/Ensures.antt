-- ===== src/Prelude/Ensures.antt =====
-- What the values that calls return satisfy.
use iamzero.Prelude.Outcome.{Outcome, ok, err, panic, Exec, ◌>>=◌, pure, after_call}

abbrev pub Holds : {S A : Type 0} → (A → Type 0) → Outcome A × S → Type 0
Holds P (ok a, s) = P a
Holds P (err e, s) = Unit
Holds P (panic p, s) = Unit

-- A value that a call returns has a property.
pub record Ensures {S A : Type 0} (P : A → Type 0) (m : Exec S A) : Type 0 where
  pub in_state : (s : S) → Holds P (m s)

Holds-after :
    {S A C : Type 0} (Q : A → Type 0) (P : C → Type 0) (r : Outcome A × S) (f : A → Exec S C)
    → Holds Q r
    → ((a : A) → Q a → Ensures P (f a))
    → Holds P (after_call r f)
Holds-after Q P (ok a, s) f q h = (h a q).in_state s
Holds-after Q P (err e, s) f q h = tt
Holds-after Q P (panic p, s) f q h = tt

pub Ensures-bind :
    {S A C : Type 0} (Q : A → Type 0) (P : C → Type 0) (m : Exec S A) (f : A → Exec S C)
    → Ensures Q m
    → ((a : A) → Q a → Ensures P (f a))
    → Ensures P (m >>= f)
Ensures-bind Q P m f q h = record { in_state = λ s. Holds-after Q P (m s) f (q.in_state s) h }

Holds-any : {S A : Type 0} (r : Outcome A × S) → Holds (λ a. Unit {0}) r
Holds-any (ok a, s) = tt
Holds-any (err e, s) = tt
Holds-any (panic p, s) = tt

pub Ensures-any : {S A : Type 0} (m : Exec S A) → Ensures (λ a. Unit {0}) m
Ensures-any m = record { in_state = λ s. Holds-any (m s) }

pub Ensures-pure : {S A : Type 0} (P : A → Type 0) (a : A) → P a → Ensures {S = S} P (pure a)
Ensures-pure P a p = record { in_state = λ s. p }
