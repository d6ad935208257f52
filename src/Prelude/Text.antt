-- ===== src/Prelude/Text.antt =====
-- Texts that the program walks: joining, the tests of package strings, and membership.
use Prim.Native.Nat.{ℕ}
use Prim.Native.Char.{Char, code}
use Prim.Native.String.{String}
use Prim.Native.String
use mathlib.Core.Path.{◌≡◌}
use mathlib.Core.Bool.{Bool, true, ◌&&◌}
use mathlib.Core.List.{List, [], ◌∷◌}
use text.Mathlib.TextLemmas
use iamzero.Prelude.Tests.{eqb, if◌then◌else◌}

-- Go's `+` on strings.
infixr 65 ◌<>◌
abbrev pub ◌<>◌ : String → String → String
s <> t = String.◌++◌ s t

pub cons-append : (c : Char) (s t : String) → (String.◌∷◌ c s) <> t ≡ String.◌∷◌ c (s <> t)
cons-append c s t = TextLemmas.cons-append c s t

pub nil-append : (t : String) → String.[] <> t ≡ t
nil-append t = TextLemmas.nil-append t

pub append_nil : (t : String) → t <> String.[] ≡ t
append_nil t = TextLemmas.append-nil t

pub append_assoc : (r s t : String) → (r <> s) <> t ≡ r <> (s <> t)
append_assoc r s t = TextLemmas.append_assoc r s t

-- Every character passes a test.
abbrev pub all_chars : (Char → Bool) → String → Bool
all_chars p String.[] = true
all_chars p (String.◌∷◌ c s) = p c && all_chars p s

abbrev pub is_char : ℕ → Char → Bool
is_char n c = eqb (code c) n

unfoldable pub put_first : Char → List String → List String
put_first c [] = String.◌∷◌ c "" ∷ []
put_first c (t ∷ ts) = String.◌∷◌ c t ∷ ts

-- strings.Split by one character: the parts between its occurrences, at least one.
unfoldable pub split : ℕ → String → List String
unfolding put_first
split sep String.[] = "" ∷ []
split sep (String.◌∷◌ c s) =
    let rest = split sep s in if is_char sep c then "" ∷ rest else put_first c rest
