-- ===== src/Tokens/Tests.antt =====
-- Two tokens, of which one is read and deleted.
use iamzero.Prelude.{
  ℕ, zero, suc, eqb, none, List, if◌then◌else◌, String, ◌≡◌, refl, true, [], ◌∷◌, ◌<◌, arith,
  eq_iff,
}
use iamzero.Prelude.Text.{all_chars}
use iamzero.Prelude.Outcome.{Outcome, ok}
use iamzero.Tokens.Random.{
  generate_random_token, generate_random_token_total, count_chars, is_letter,
}
use iamzero.Tokens.Memory.{in_memory_token_storer}
use iamzero.Tokens.Refines.{
  Call, create_call, get_call, delete_call, replies, map_replies, in_memory-map,
}

abbrev draws : ℕ → ℕ → Outcome ℕ
draws n i = ok 0

abbrev zeros : String
zeros = "00000000000000000000000000000000"

-- The first letter tells the n-th token.
abbrev numbered : ℕ → ℕ → Outcome ℕ
numbered n i = ok (if eqb i 0 then n else 0)

abbrev two_ids : ℕ → String
two_ids zero = zeros
two_ids (suc n) = "10000000000000000000000000000000"

abbrev calls : List Call
calls = create_call "a" ∷ create_call "b" ∷ get_call zeros ∷ delete_call zeros ∷ get_call zeros ∷ []

two_drawn : (n : ℕ) → n < 2 → generate_random_token (numbered n) ≡ ok (two_ids n)
unfolding generate_random_token
two_drawn zero lt = refl
two_drawn (suc zero) lt = refl
two_drawn (suc (suc n)) lt = absurd (omega (arith, lt))

two_differ : (n m : ℕ) → n < 2 → m < 2 → two_ids n ≡ two_ids m → n ≡ m
two_differ zero zero ln lm e = refl
two_differ zero (suc m) ln lm e =
    absurd (cc ((eq_iff zeros "10000000000000000000000000000000").1 e))
two_differ (suc n) zero ln lm e =
    absurd (cc ((eq_iff "10000000000000000000000000000000" zeros).1 e))
two_differ (suc n) (suc m) ln lm e = omega (arith, ln, lm)

in_memory-map_example :
    replies (in_memory_token_storer numbered) calls (record { tokens = []; generated = 0 })
    ≡ map_replies two_ids calls (record { at = λ j. none; next = 0 })
in_memory-map_example = in_memory-map numbered two_ids calls two_drawn two_differ

always_zero : (k : ℕ) → (v : ℕ) × (draws 0 k ≡ ok v) × (v < 62)
always_zero k = (0, refl, omega arith)

random_example :
    (t : String) × (generate_random_token (draws 0) ≡ ok t)
    × (count_chars t ≡ 32)
    × (all_chars is_letter t ≡ true)
random_example = generate_random_token_total (draws 0) always_zero
