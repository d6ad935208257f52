-- ===== src/Prelude/Occurs.antt =====
-- Where a text occurs in another one, said without the search of `cut`.
use Prim.Native.Char.{Char, code}
use Prim.Native.Nat.{ℕ, suc, ◌≤◌}
use Prim.Native.String.{String}
use mathlib.Core.Path.{◌≡◌, refl, sym, ap, ap₂, ◌∙◌}
use mathlib.Core.Logic.{◌≢◌, ◌⊎◌, inl, inr}
use mathlib.Core.Option.{none, some, some-injective}
use native.Mathlib.Omega.{arith}
use text.Mathlib.TextEquality.{Char-path}
use iamzero.Prelude.Tests.{eqb, Bool-cases, Option-cases}
use iamzero.Prelude.Text.{◌<>◌, cons-append, nil-append}
use iamzero.Prelude.Scan.{after_literal, after_literal-append}
use iamzero.Prelude.Words.{cut}

abbrev pub letters : String → ℕ
letters String.[] = 0
letters (String.◌∷◌ c s) = suc (letters s)

-- The separator occurs nowhere.
abbrev pub Absent : String → String → Type 0
Absent sep s = (before after : String) → s ≢ before <> (sep <> after)

-- The parts around the first place where the separator occurs.
abbrev pub First : String → String → String → String → Type 0
First sep s before after =
    (s ≡ before <> (sep <> after))
    × ((b a : String) → s ≡ b <> (sep <> a) → letters before ≤ letters b)

pub after_literal_sound : (p s r : String) → after_literal p s ≡ some r → s ≡ p <> r
unfolding after_literal
after_literal_sound String.[] s r e = some-injective s r e ∙ sym (nil-append r)
after_literal_sound (String.◌∷◌ c p) String.[] r e = cc
after_literal_sound (String.◌∷◌ c p) (String.◌∷◌ d s) r e =
    elim (Bool-cases (eqb (code c) (code d))) [
      | inl q ↦
          ap₂ (λ x y. String.◌∷◌ x y) (Char-path d c (ground (arith, q)))
            (after_literal_sound p s r (rw q at e))
          ∙ sym (cons-append c p r)
      | inr q ↦ let never = rw q at e in cc
    ]

pub after_literal-none : (p s r : String) → after_literal p s ≡ none → s ≢ p <> r
after_literal-none p s r e q = cc (ap (after_literal p) q, after_literal-append p r)

tail : String → String
tail String.[] = ""
tail (String.◌∷◌ c s) = s

cons-occurs : (c d : Char) (s b t : String) → String.◌∷◌ c s ≡ String.◌∷◌ d b <> t → s ≡ b <> t
unfolding tail
cons-occurs c d s b t e = ap tail (e ∙ cons-append d b t)

cons-First :
    (sep : String) (c : Char) (s b a : String)
    → after_literal sep (String.◌∷◌ c s) ≡ none
    → First sep s b a
    → First sep (String.◌∷◌ c s) (String.◌∷◌ c b) a
cons-First sep c s b a n (e, least) =
    (ap (λ t. String.◌∷◌ c t) e ∙ sym (cons-append c b (sep <> a)), from)
  where
    from :
        (b' a' : String)
        → String.◌∷◌ c s ≡ b' <> (sep <> a')
        → letters (String.◌∷◌ c b) ≤ letters b'
    from String.[] a' q = absurd (after_literal-none sep _ a' n (q ∙ nil-append (sep <> a')))
    from (String.◌∷◌ d b') a' q = omega (arith, least b' a' (cons-occurs c d s b' (sep <> a') q))

cons-Absent :
    (sep : String) (c : Char) (s : String)
    → after_literal sep (String.◌∷◌ c s) ≡ none
    → Absent sep s
    → Absent sep (String.◌∷◌ c s)
cons-Absent sep c s n h String.[] a q = after_literal-none sep _ a n (q ∙ nil-append (sep <> a))
cons-Absent sep c s n h (String.◌∷◌ d b) a q = h b a (cons-occurs c d s b (sep <> a) q)

here-First : (sep s a : String) → after_literal sep s ≡ some a → First sep s "" a
here-First sep s a e =
    (after_literal_sound sep s a e ∙ sym (nil-append (sep <> a)), λ b r q. omega arith)

-- cut finds the first occurrence, if there is one.
pub cut_lem :
    (sep s : String)
    → ((cut sep s ≡ none) × Absent sep s)
      ⊎ ((before after : String) × (cut sep s ≡ some (before, after)) × First sep s before after)
unfolding cut
cut_lem sep String.[] = elim (Option-cases (after_literal sep "")) [
  | inr (r, e) ↦ inr ("", r, rw (e, cut) refl, here-First sep "" r e)
  | inl e ↦ inl (rw (e, cut) refl, nowhere e)
]
  where
    nowhere : after_literal sep "" ≡ none → Absent sep ""
    nowhere e String.[] a q = after_literal-none sep "" a e (q ∙ nil-append (sep <> a))
    nowhere e (String.◌∷◌ d b) a q = cc (cons-append d b (sep <> a))
cut_lem sep (String.◌∷◌ c s) = elim (Option-cases (after_literal sep (String.◌∷◌ c s))) [
  | inr (r, e) ↦ inr ("", r, rw (e, cut) refl, here-First sep (String.◌∷◌ c s) r e)
  | inl e ↦ elim (cut_lem sep s) [
    | inl (n, h) ↦ inl (rw (e, n, cut) refl, cons-Absent sep c s e h)
    | inr (b, a, f, h) ↦ inr (String.◌∷◌ c b, a, rw (e, f, cut) refl, cons-First sep c s b a e h)
  ]
]
