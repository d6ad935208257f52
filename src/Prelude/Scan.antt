-- ===== src/Prelude/Scan.antt =====
-- The pieces of a regular expression, as readers that return what they captured and the rest,
-- and what they do on a text that begins as they expect.
use Prim.Native.Char.{Char, code}
use Prim.Native.Nat.{ℕ, zero, suc}
use Prim.Native.String.{String}
use mathlib.Core.Path.{◌≡◌, refl}
use mathlib.Core.Bool.{Bool, true, false, ◌&&◌}
use mathlib.Core.Option.{Option, none, some}
use native.Mathlib.Omega.{arith}
use iamzero.Prelude.Tests.{eqb, if◌then◌else◌}
use iamzero.Prelude.Text.{◌<>◌, all_chars, cons-append, nil-append}

-- A literal: what stands behind it.
unfoldable pub after_literal : String → String → Option String
after_literal String.[] s = some s
after_literal (String.◌∷◌ c p) String.[] = none
after_literal (String.◌∷◌ c p) (String.◌∷◌ d s) =
    let rest = after_literal p s in if eqb (code c) (code d) then rest else none

-- The longest run of a class, and the rest.
unfoldable pub run_of : (Char → Bool) → String → String × String
run_of p String.[] = ("", "")
run_of p (String.◌∷◌ c s) =
    let r = run_of p s in if p c then (String.◌∷◌ c r.0, r.1) else ("", String.◌∷◌ c s)

-- A class with `+`: the run has a character.
unfoldable pub run_of_some : (Char → Bool) → String → Option (String × String)
unfolding run_of
run_of_some p s = elim (run_of p s).0 [ String.[] ↦ none | _ ↦ some (run_of p s) ]

-- A class with `{n}`.
unfoldable pub run_of_exactly : ℕ → (Char → Bool) → String → Option (String × String)
run_of_exactly zero p s = some ("", s)
run_of_exactly (suc n) p String.[] = none
run_of_exactly (suc n) p (String.◌∷◌ c s) =
    let rest = run_of_exactly n p s in
    if p c then elim rest [ none ↦ none | some (t, u) ↦ some (String.◌∷◌ c t, u) ] else none

pub after_literal-append : (p s : String) → after_literal p (p <> s) ≡ some s
unfolding after_literal
after_literal-append String.[] s = rw (nil-append s)
after_literal-append (String.◌∷◌ c p) s =
    rw (cons-append c p s) (ground (arith, after_literal-append p s))

-- `p` stops at the head of `s`.
abbrev pub Stops : (Char → Bool) → String → Type 0
Stops p String.[] = Unit
Stops p (String.◌∷◌ c s) = p c ≡ false

pub run_of-append :
    (p : Char → Bool) (t s : String) → all_chars p t ≡ true → Stops p s → run_of p (t <> s) ≡ (t, s)
unfolding run_of
run_of-append p String.[] String.[] h e = refl
run_of-append p String.[] (String.◌∷◌ c s) h e = rw (nil-append (String.◌∷◌ c s)) (ground arith)
run_of-append p (String.◌∷◌ c t) s h e =
    rw (cons-append c t s) (ground (arith, run_of-append p t s))

-- A text of `n` characters of the class.
abbrev pub exactly : ℕ → (Char → Bool) → String → Bool
exactly zero p String.[] = true
exactly zero p (String.◌∷◌ c s) = false
exactly (suc n) p String.[] = false
exactly (suc n) p (String.◌∷◌ c s) = p c && exactly n p s

pub run_of_exactly-append :
    (n : ℕ) (p : Char → Bool) (t s : String)
    → exactly n p t ≡ true
    → run_of_exactly n p (t <> s) ≡ some (t, s)
unfolding run_of_exactly
run_of_exactly-append zero p String.[] s h = rw (nil-append s)
run_of_exactly-append zero p (String.◌∷◌ c t) s h = cc
run_of_exactly-append (suc n) p String.[] s h = cc
run_of_exactly-append (suc n) p (String.◌∷◌ c t) s h =
    rw (cons-append c t s) (ground (arith, run_of_exactly-append n p t s))

pub run_of_some-append :
    (p : Char → Bool) (c : Char) (t s : String)
    → all_chars p (String.◌∷◌ c t) ≡ true
    → Stops p s
    → run_of_some p (String.◌∷◌ c t <> s) ≡ some (String.◌∷◌ c t, s)
unfolding run_of_some
run_of_some-append p c t s h e = ground (arith, run_of-append p (String.◌∷◌ c t) s h e)

pub after_literal-differ :
    (c d : Char) (p s t : String)
    → eqb (code c) (code d) ≡ false
    → after_literal (String.◌∷◌ c p) (String.◌∷◌ d s <> t) ≡ none
unfolding after_literal
after_literal-differ c d p s t h = rw (cons-append d s t) (ground arith)

pub exactly-all_chars :
    (n : ℕ) (p : Char → Bool) (t : String) → exactly n p t ≡ true → all_chars p t ≡ true
exactly-all_chars zero p String.[] h = refl
exactly-all_chars zero p (String.◌∷◌ c t) h = cc
exactly-all_chars (suc n) p String.[] h = refl
exactly-all_chars (suc n) p (String.◌∷◌ c t) h = ground (arith, exactly-all_chars n p t)

-- A run of exactly so many characters, more than none, is the longest run where it stops.
pub run_of_some-exactly :
    (n : ℕ) (p : Char → Bool) (t s : String)
    → exactly (suc n) p t ≡ true
    → Stops p s
    → run_of_some p (t <> s) ≡ some (t, s)
run_of_some-exactly n p String.[] s h e = cc
run_of_some-exactly n p (String.◌∷◌ c t) s h e =
    run_of_some-append p c t s (exactly-all_chars (suc n) p (String.◌∷◌ c t) h) e
