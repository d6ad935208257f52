-- ===== src/Prelude/Assoc.antt =====
-- Go maps with text keys, as association lists that keep the order of the first writes.
use Prim.Native.String.{String}
use mathlib.Core.Path.{◌≡◌, refl}
use mathlib.Core.Option.{Option, none, some}
use mathlib.Core.List.{List, [], ◌∷◌}
use native.Mathlib.Omega.{arith}
use text.Mathlib.Text.{◌==◌}
use text.Mathlib.TextEquality.{eq_iff}
use iamzero.Prelude.Tests.{if◌then◌else◌}

module _ {ℓ} {A : Type ℓ} where
  unfoldable pub lookup : String → List (String × A) → Option A
  lookup name [] = none
  lookup name (entry ∷ entries) =
      let later = lookup name entries in if entry.0 == name then some entry.1 else later

  -- A key that is there keeps its place.
  unfoldable pub insert : String → A → List (String × A) → List (String × A)
  insert name a [] = (name, a) ∷ []
  insert name a (entry ∷ entries) =
      let later = entry ∷ insert name a entries in
      if entry.0 == name then (name, a) ∷ entries else later

  pub lookup-insert :
      (name key : String) (a : A) (entries : List (String × A))
      → lookup key (insert name a entries) ≡ (if name == key then some a else lookup key entries)
  unfolding insert lookup
  lookup-insert name key a [] = refl
  lookup-insert name key a (entry ∷ entries) = ground (
    arith,
    lookup-insert name key a entries,
    eq_iff entry.0 key,
    eq_iff name key,
    eq_iff entry.0 name,
  )
