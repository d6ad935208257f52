-- ===== src/Prelude/Digits.antt =====
-- fmt.Sprint of a number: its decimal digits, counted up from 0.
use Prim.Native.Nat.{ℕ, zero, suc, ◌+◌}
use Prim.Native.String.{String}
use mathlib.Core.Path.{◌≡◌, refl}
use mathlib.Core.List.{List, [], ◌∷◌}
use iamzero.Prelude.Tests.{eqb, if◌then◌else◌}
use iamzero.Prelude.Text.{◌<>◌}

-- Digits, the last one first.
increment : List ℕ → List ℕ
increment [] = 1 ∷ []
increment (d ∷ ds) = let carried = increment ds in if eqb d 9 then 0 ∷ carried else (d + 1) ∷ ds

digits : ℕ → List ℕ
unfolding increment
digits zero = 0 ∷ []
digits (suc n) = increment (digits n)

digit_text : List String → ℕ → String
digit_text [] n = ""
digit_text (t ∷ ts) zero = t
digit_text (t ∷ ts) (suc n) = digit_text ts n

written : List ℕ → String
unfolding digit_text
written [] = ""
written (d ∷ ds) =
    written ds <> digit_text ("0" ∷ "1" ∷ "2" ∷ "3" ∷ "4" ∷ "5" ∷ "6" ∷ "7" ∷ "8" ∷ "9" ∷ []) d

unfoldable pub decimal : ℕ → String
unfolding digits written
decimal n = written (digits n)

decimal_example : decimal 109 ≡ "109"
unfolding decimal
decimal_example = refl
