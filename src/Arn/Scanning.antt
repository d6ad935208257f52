-- ===== src/Arn/Scanning.antt =====
-- The search for a match.
use iamzero.Prelude.{String, ◌≡◌, Option, none, some}
use Prim.Native.Char.{Char}
use iamzero.Arn.{find_submatch}

pub find_submatch-here {ℓ} :
    {A : Type ℓ} (m : String → Option A) (s : String) {a : A}
    → m s ≡ some a
    → find_submatch m s ≡ some a
unfolding find_submatch
find_submatch-here m String.[] h = h
find_submatch-here m (String.◌∷◌ c s) h = rw (h, find_submatch)

-- No position has a match.
pub find_submatch-none {ℓ} :
    {A : Type ℓ} (m : String → Option A) (c : Char) (s : String)
    → m (String.◌∷◌ c s) ≡ none
    → find_submatch m s ≡ none
    → find_submatch m (String.◌∷◌ c s) ≡ none
unfolding find_submatch
find_submatch-none m c s h k = rw (h, find_submatch) k
