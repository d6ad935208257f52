-- ===== src/Tokens/Random.antt =====
-- GenerateRandomToken of pkg/crypto/random_token.go.  `draw i` is the outcome of the i-th call of
-- rand.Int, which package crypto/rand documents to be below 62 where it succeeds.
use Prim.Native.Char.{Char, code}
use iamzero.Prelude.{ℕ, zero, suc, ◌<◌, String, ◌≡◌, refl, Bool, true, ◌&&◌, ◌||◌, leb, arith}
use iamzero.Prelude.Text.{all_chars}
use iamzero.Prelude.Outcome.{Outcome, ok, panic, index_out_of_range, and_then}

abbrev letters : String
letters = "0123456789ABCDEFGHIJKLMNOPQRSTUVWXYZabcdefghijklmnopqrstuvwxyz"

-- letters[num]
letter_at : ℕ → String → Outcome Char
letter_at n String.[] = panic index_out_of_range
letter_at zero (String.◌∷◌ c s) = ok c
letter_at (suc n) (String.◌∷◌ c s) = letter_at n s

-- The rounds that are left, from round `i` on.
random_letters : (ℕ → Outcome ℕ) → ℕ → ℕ → Outcome String
unfolding letter_at
random_letters draw zero i = ok ""
random_letters draw (suc n) i = and_then (draw i) λ num.
    and_then (letter_at num letters)
      λ c. and_then (random_letters draw n (suc i)) λ rest. ok (String.◌∷◌ c rest)

unfoldable pub generate_random_token : (ℕ → Outcome ℕ) → Outcome String
unfolding random_letters
generate_random_token draw = random_letters draw 32 0

abbrev pub count_chars : String → ℕ
count_chars String.[] = 0
count_chars (String.◌∷◌ c s) = suc (count_chars s)

abbrev pub is_letter : Char → Bool
is_letter c =
    (leb b'0' (code c) && leb (code c) b'9')
    || (leb b'A' (code c) && leb (code c) b'Z')
    || (leb b'a' (code c) && leb (code c) b'z')

count_letters : count_chars letters ≡ 62
count_letters = refl

letters_are : all_chars is_letter letters ≡ true
letters_are = refl

letter_at_total :
    (n : ℕ) (s : String)
    → n < count_chars s
    → all_chars is_letter s ≡ true
    → (c : Char) × (letter_at n s ≡ ok c) × (is_letter c ≡ true)
unfolding letter_at
letter_at_total n String.[] h a = elim h [ ]
letter_at_total zero (String.◌∷◌ c s) h a = (c, refl, ground arith)
letter_at_total (suc n) (String.◌∷◌ c s) h a = letter_at_total n s (omega arith) (ground arith)

random_letters_total :
    (draw : ℕ → Outcome ℕ) (n i : ℕ)
    → ((k : ℕ) → (v : ℕ) × (draw k ≡ ok v) × (v < 62))
    → (t : String) × (random_letters draw n i ≡ ok t)
      × (count_chars t ≡ n)
      × (all_chars is_letter t ≡ true)
unfolding random_letters
random_letters_total draw zero i h = ("", refl, refl, refl)
random_letters_total draw (suc n) i h =
    let (v, d, lt) = h i in
    let (c, e, l) = letter_at_total v letters lt letters_are in
    let (t, r, count, all) = random_letters_total draw n (suc i) h in
    (String.◌∷◌ c t, rw (d, e, r) refl, omega arith, ground arith)

-- Where each draw succeeds below 62, a token is generated; it has 32 characters, each of them a
-- digit or an English letter.
pub generate_random_token_total :
    (draw : ℕ → Outcome ℕ)
    → ((k : ℕ) → (v : ℕ) × (draw k ≡ ok v) × (v < 62))
    → (t : String) × (generate_random_token draw ≡ ok t)
      × (count_chars t ≡ 32)
      × (all_chars is_letter t ≡ true)
unfolding generate_random_token
generate_random_token_total draw h = random_letters_total draw 32 0 h
