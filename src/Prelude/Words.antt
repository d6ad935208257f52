-- ===== src/Prelude/Words.antt =====
-- Trim, Join, Contains and ReplaceAll of package strings, and how they undo each other.
use Prim.Native.Char.{Char, code}
use Prim.Native.Nat.{ℕ}
use Prim.Native.String.{String}
use mathlib.Core.Path.{◌≡◌, refl, ap, ap₂, ◌∙◌}
use mathlib.Core.Logic.{inl, inr}
use mathlib.Core.Bool.{Bool, true, false, not, ◌&&◌, ◌||◌}
use mathlib.Core.Option.{Option, none, some}
use mathlib.Core.List.{List, [], ◌∷◌, ◌++◌}
use native.Mathlib.Omega.{arith}
use iamzero.Prelude.Tests.{eqb, if◌then◌else◌, Bool-cases, and→both}
use iamzero.Prelude.Lists.{All}
use iamzero.Prelude.Scan.{after_literal}
use iamzero.Prelude.Text.{◌<>◌, all_chars, is_char, split, put_first, cons-append, nil-append}

unfoldable pub trim_left : (Char → Bool) → String → String
trim_left p String.[] = ""
trim_left p (String.◌∷◌ c s) = let rest = trim_left p s in if p c then rest else String.◌∷◌ c s

-- A character put before what is left of the rest; where nothing is, it is trimmed itself.
keep_before : Bool → Char → String → String
keep_before true c String.[] = ""
keep_before _ c s = String.◌∷◌ c s

unfoldable pub trim_right : (Char → Bool) → String → String
unfolding keep_before
trim_right p String.[] = ""
trim_right p (String.◌∷◌ c s) = keep_before (p c) c (trim_right p s)

unfoldable pub trim : (Char → Bool) → String → String
unfolding trim_left trim_right
trim p s = trim_right p (trim_left p s)

unfoldable pub join : String → List String → String
join sep [] = ""
join sep (s ∷ []) = s
join sep (s ∷ t ∷ ss) = s <> (sep <> join sep (t ∷ ss))

-- What stands before and behind the first occurrence of a text.
unfoldable pub cut : String → String → Option (String × String)
unfolding after_literal
cut sep String.[] = elim (after_literal sep "") [ none ↦ none | some r ↦ some ("", r) ]
cut sep (String.◌∷◌ c s) =
    let later = cut sep s in
    elim (after_literal sep (String.◌∷◌ c s)) [
      | some r ↦ some ("", r)
      | none ↦ elim later [ none ↦ none | some (a, b) ↦ some (String.◌∷◌ c a, b) ]
    ]

unfoldable pub contains : String → String → Bool
unfolding cut
contains s part = elim (cut part s) [ none ↦ false | some r ↦ true ]

-- ReplaceAll of one character by another.
unfoldable pub replace_char : ℕ → Char → String → String
replace_char from to String.[] = ""
replace_char from to (String.◌∷◌ c s) =
    String.◌∷◌ (if is_char from c then to else c) (replace_char from to s)

pub all_chars-append :
    (p : Char → Bool) (s t : String) → all_chars p (s <> t) ≡ (all_chars p s && all_chars p t)
all_chars-append p String.[] t = rw (nil-append t) refl
all_chars-append p (String.◌∷◌ c s) t =
    rw (cons-append c s t) (ground (arith, all_chars-append p s t))

-- No occurrence of a character.
abbrev pub Lacks : ℕ → String → Type 0
Lacks n s = all_chars (λ c. not (is_char n c)) s ≡ true

pub split-Lacks : (n : ℕ) (s : String) → Lacks n s → split n s ≡ s ∷ []
unfolding split put_first
split-Lacks n String.[] h = refl
split-Lacks n (String.◌∷◌ c s) h =
    let (a, b) = and→both (not (is_char n c)) (all_chars (λ x. not (is_char n x)) s) h in
    ground (arith, split-Lacks n s b)

put_first-append :
    (c : Char) (xs : List String) (y : String) (ys zs : List String)
    → xs ≡ y ∷ ys
    → put_first c (xs ++ zs) ≡ put_first c xs ++ zs
unfolding put_first
put_first-append c xs y ys zs e = rw e refl

pub split-nonempty : (n : ℕ) (s : String) → (y : String) × (ys : List String) × (split n s ≡ y ∷ ys)
unfolding split put_first
split-nonempty n String.[] = ("", [], refl)
split-nonempty n (String.◌∷◌ c s) =
    let (y, ys, e) = split-nonempty n s in
    elim (Bool-cases (is_char n c)) [
      | inl q ↦ ("", split n s, rw q refl)
      | inr q ↦ (String.◌∷◌ c y, ys, rw (q, e) refl)
    ]

-- Splitting at a separator of one character splits both sides.
pub split-append :
    (n : ℕ) (c : Char) (s t : String)
    → is_char n c ≡ true
    → split n (s <> (String.◌∷◌ c t)) ≡ split n s ++ split n t
unfolding split
split-append n c String.[] t h = rw (nil-append (String.◌∷◌ c t)) (ground arith)
split-append n c (String.◌∷◌ d s) t h =
    let (y, ys, e) = split-nonempty n s in
    rw (cons-append d s (String.◌∷◌ c t)) (elim (Bool-cases (is_char n d)) [
      | inl q ↦ rw (q, split-append n c s t h) refl
      | inr q ↦ rw (q, split-append n c s t h) (put_first-append d (split n s) y ys (split n t) e)
    ])

pub one-append : (c : Char) (t : String) → (String.◌∷◌ c "") <> t ≡ String.◌∷◌ c t
one-append c t = cons-append c "" t ∙ ap (String.◌∷◌ c) (nil-append t)

-- Parts without the separator, joined and split again.
pub split-join :
    (n : ℕ) (c : Char) (s : String) (ss : List String)
    → is_char n c ≡ true
    → Lacks n s
    → All (Lacks n) ss
    → split n (join (String.◌∷◌ c "") (s ∷ ss)) ≡ s ∷ ss
unfolding join
split-join n c s [] h l ls = split-Lacks n s l
split-join n c s (t ∷ ts) h l ls =
    ap (λ x. split n (s <> x)) (one-append c (join (String.◌∷◌ c "") (t ∷ ts)))
    ∙ split-append n c s (join (String.◌∷◌ c "") (t ∷ ts)) h
    ∙ ap₂ (λ x y. x ++ y) (split-Lacks n s l) (split-join n c t ts h ls.0 ls.1)

-- strings.Trim by a set of characters, given as a text.
one_of : String → Char → Bool
one_of String.[] c = false
one_of (String.◌∷◌ d cutset) c = eqb (code d) (code c) || one_of cutset c

unfoldable pub trim_cutset : String → String → String
unfolding trim one_of
trim_cutset cutset s = trim (one_of cutset) s

unfoldable pub has_prefix : String → String → Bool
unfolding after_literal
has_prefix s prefix = elim (after_literal prefix s) [ none ↦ false | some rest ↦ true ]
